-- ===== src/Runtime/State.antt =====
-- What the updater holds in memory and on disk (cc-runtime-updater.ts).
use agent_workflow_platform.Prelude.{
  ℕ, String, Bool, true, false, ◌&&◌, List, [], ◌∷◌, Option, none, some, ◌⧺◌, ◌==◌, if◌then◌else◌,
  option_is, slice_units, is_some, present,
}
use agent_workflow_platform.Agent.Config.{Result, ok, failed, and_then, Env, env_text}
use agent_workflow_platform.Runtime.Text.{is_artifact_dir, lower_hash}
use agent_workflow_platform.Runtime.Manifest.{channel_name, resolve_channel, Artifact, Release}
use agent_workflow_platform.Runtime.Fetch.{
  Bytes, Url, Platform, Response, runtime_manifest_url, parse_pinned_public_key,
}

pub data Stage : Type 0 where
  idle : Stage
  downloading : Stage
  verifying : Stage
  staging : Stage
  done : Stage
  error : Stage

pub record Progress : Type 0 where
  pub stage : Stage
  pub bytes_downloaded : ℕ
  pub bytes_total : ℕ
  pub version : Option String
  pub error : Option String

pub record VersionMeta : Type 0 where
  pub current_version : Option String
  pub current_dir : Option String
  pub last_check_ms : ℕ
  pub last_update_ms : ℕ

-- The path of a managed executable is written as the name of its directory.
pub record VerifiedManagedRuntime : Type 0 where
  pub config_id : String
  pub path : String
  pub version : String

-- An entry of the directory `versions`, but for those of staging. It has an executable where it is a
-- directory with the file of that name, and neither is a link.
pub record Dir : Type 0 where
  pub name : String
  pub executable : Option Bytes
  pub modified : ℕ

-- The variables of the module, what is read of `version.json`, and the directory `versions`.
pub record Updater : Type 0 where
  pub updating : Bool
  pub progress : Progress
  pub verified : Option VerifiedManagedRuntime
  pub meta : Option VersionMeta
  pub dirs : List Dir

-- What surrounds a call: `text_hash` and `sha256` are hexadecimal digests, `meta_error` is what
-- writing `version.json` fails with, `disk_error` what the move of a staged directory fails with.
pub record Machine : Type 0 where
  pub platform : Platform
  pub env : Env
  pub platform_key : String
  pub desktop_version : String
  pub external : Option String
  pub sha256 : Bytes → String
  pub text_hash : String → String
  pub manifest_server : Url → Result Response
  pub artifact_server : Url → Result Response
  pub removable : String → Bool
  pub meta_error : Option String
  pub disk_error : Option String
  pub now : ℕ

unfoldable pub empty_meta : VersionMeta
empty_meta = record {
  current_version = none;
  current_dir = none;
  last_check_ms = 0;
  last_update_ms = 0;
}

-- with the separator `\0`
unfoldable pub validate_managed_runtime_configuration : Machine → Result String
unfolding runtime_manifest_url parse_pinned_public_key resolve_channel channel_name env_text
    and_then
validate_managed_runtime_configuration m =
    and_then (runtime_manifest_url m.platform m.env) (λ (manifest : Url).
      and_then (parse_pinned_public_key m.platform m.env) (λ key. ok (
        m.text_hash (
          manifest.href
          ⧺ "\0"
          ⧺ channel_name (resolve_channel m.env)
          ⧺ "\0"
          ⧺ env_text m.env "AWP_AGENT_RUNTIME_PUBLIC_KEY"))))

-- The executable in the directory of this name.
unfoldable pub executable_in : String → List Dir → Option Bytes
executable_in name [] = none
executable_in name (d ∷ ds) = if d.name == name then d.executable else executable_in name ds

unfoldable pub has_dir : String → List Dir → Bool
has_dir name [] = false
has_dir name (d ∷ ds) = if d.name == name then true else has_dir name ds

unfoldable pub artifact_dir : Release → Artifact → String
artifact_dir r a = r.version ⧺ "--" ⧺ slice_units 12 a.sha256

unfoldable pub managed_executable_path : VersionMeta → List Dir → Option (String × Bytes)
unfolding is_artifact_dir executable_in
managed_executable_path meta dirs = elim meta.current_dir [
  | none ↦ none
  | some name ↦
      if is_artifact_dir name && present meta.current_version
      then elim (executable_in name dirs) [ none ↦ none | some bytes ↦ some (name, bytes) ]
      else none
]

unfoldable pub still_there :
    String → Option VerifiedManagedRuntime → List Dir → Option VerifiedManagedRuntime
unfolding executable_in
still_there config none dirs = none
still_there config (some v) dirs =
    if v.config_id == config && is_some (executable_in v.path dirs) then some v else none

unfoldable pub current_verified_managed_runtime : Machine → Updater → Option VerifiedManagedRuntime
unfolding validate_managed_runtime_configuration still_there
current_verified_managed_runtime m s = elim (validate_managed_runtime_configuration m) [
  | failed code ↦ none
  | ok config ↦ still_there config s.verified s.dirs
]

unfoldable pub get_cli_path : Machine → Updater → Option String
unfolding current_verified_managed_runtime
get_cli_path m s = elim m.external [
  | some path ↦ some path
  | none ↦ elim (current_verified_managed_runtime m s) [ none ↦ none | some v ↦ some v.path ]
]

-- whether the file is the artifact
abbrev pub is_artifact : Machine → Artifact → Bytes → Bool
is_artifact m a bytes = m.sha256 bytes == lower_hash a.sha256

-- The tests of `verifyManagedRuntime`.
unfoldable pub verified_path : Machine → VersionMeta → Release → Artifact → List Dir → Option String
unfolding artifact_dir managed_executable_path
verified_path m meta r a dirs =
    if option_is meta.current_version r.version && option_is meta.current_dir (artifact_dir r a)
    then elim (managed_executable_path meta dirs) [
      | none ↦ none
      | some (name, bytes) ↦ if is_artifact m a bytes then some name else none
    ]
    else none

-- the note of a path that was found
unfoldable pub noted : Release → String → Updater → Option String → Bool × Updater
noted r config s none = (false, s)
noted r config s (some path) = (
  true,
  record s { verified = some (record { config_id = config; path = path; version = r.version }) },
)

-- whether the runtime is verified, and the state behind it
unfoldable pub verify_managed_runtime :
    Machine → VersionMeta → Release → Artifact → String → Updater → Bool × Updater
unfolding verified_path noted
verify_managed_runtime m meta r a config s = noted r config s (verified_path m meta r a s.dirs)

unfoldable pub set_progress : Progress → Updater → Updater
set_progress p s = record s { progress = p }

-- the error of writing, and the state behind it
unfoldable pub write_meta : Machine → VersionMeta → Updater → Option String × Updater
write_meta m meta s = elim m.meta_error [
  | none ↦ (none, record s { meta = some meta })
  | some code ↦ (some code, s)
]
