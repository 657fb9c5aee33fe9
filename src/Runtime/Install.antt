-- ===== src/Runtime/Install.antt =====
-- How an artifact is downloaded and put in its directory, and how old ones go
-- (cc-runtime-updater.ts).
use agent_workflow_platform.Prelude.{
  ℕ, ◌+◌, ◌-◌, String, Bool, false, ◌&&◌, ◌||◌, not, List, [], ◌∷◌, ◌++◌, length, filter, drop, any,
  Option, none, some, get_or, ◌⧺◌, ◌==◌, if◌then◌else◌, eqb, ltb, truthy, decimal, option_is,
  is_some, map_get,
}
use agent_workflow_platform.Agent.Json.{str}
use agent_workflow_platform.Agent.Config.{Result, ok, failed, and_then}
use agent_workflow_platform.Runtime.Text.{is_artifact_dir}
use agent_workflow_platform.Runtime.Manifest.{
  Artifact, Release, max_artifact_bytes, validate_version, validate_hash,
}
use agent_workflow_platform.Runtime.Fetch.{Bytes, Url, Platform, Response, validate_artifact_url}
use agent_workflow_platform.Runtime.State.{
  downloading, verifying, staging, VersionMeta, Dir, Updater, Machine, executable_in, has_dir,
  artifact_dir, set_progress, write_meta,
}

-- the announced length, or 0
announced : Platform → Option String → Result ℕ
announced p none = ok 0
announced p (some raw) = if not (truthy raw) then ok 0 else elim (p.safe_size raw) [
  | none ↦ failed "invalid_runtime_content_length"
  | some n ↦
      if eqb n 0 || ltb max_artifact_bytes n then failed "invalid_runtime_content_length" else ok n
]

differs : Option ℕ → ℕ → Bool
differs none n = false
differs (some size) n = not (eqb size n)

exceeds : Option ℕ → ℕ → Bool
exceeds none n = ltb max_artifact_bytes n
exceeds (some size) n = ltb max_artifact_bytes n || ltb size n

-- The loop of `downloadExecutable`: what was written, and how many bytes were read.
unfoldable pub write_pieces : Option ℕ → ℕ → List (Result Bytes) → Result Bytes × ℕ
unfolding exceeds and_then
write_pieces size total [] = (ok [], total)
write_pieces size total (failed code ∷ rest) = (failed code, total)
write_pieces size total (ok chunk ∷ rest) =
    let more = write_pieces size (total + length chunk) rest in
    if exceeds size (total + length chunk)
    then (failed "runtime_artifact_too_large", total)
    else (and_then more.0 (λ (bytes : Bytes). ok (chunk ++ bytes)), more.1)

-- the tests of the content
content_of : Machine → Artifact → Result Bytes → Result Bytes
unfolding differs and_then
content_of m a written = and_then written (λ bytes.
    if differs a.bytes (length bytes)
    then failed "runtime_artifact_size_mismatch"
    else if eqb (length bytes) 0
    then failed "runtime_artifact_empty"
    else if m.sha256 bytes == a.sha256
    then ok bytes
    else failed "runtime_artifact_sha256_mismatch")

-- the body of the answer, with its announced length
unfoldable pub artifact_body : Machine → Artifact → Response → Result (List (Result Bytes) × ℕ)
unfolding announced differs and_then decimal
artifact_body m a r =
    if not r.is_ok then failed ("runtime_artifact_http_" ⧺ decimal r.status) else elim r.body [
      | none ↦ failed "runtime_artifact_empty_body"
      | some pieces ↦ and_then (announced m.platform r.content_length) (λ size.
          if not (eqb size 0) && differs a.bytes size
          then failed "runtime_content_length_mismatch"
          else ok (pieces, size))
    ]

-- Whether all was written and neither too long, too short nor empty: then it is verified.
was_read : Artifact → Result Bytes → Bool
unfolding differs
was_read a (failed code) = false
was_read a (ok bytes) = not (differs a.bytes (length bytes)) && not (eqb (length bytes) 0)

unfoldable pub downloaded :
    Machine
    → Artifact
    → String
    → Updater
    → Result (List (Result Bytes) × ℕ)
    → Result Bytes × Updater
unfolding write_pieces content_of was_read set_progress
downloaded m a version s (failed code) = (failed code, s)
downloaded m a version s (ok (pieces, size)) =
    let (written, total) = write_pieces a.bytes 0 pieces in
    (
      content_of m a written,
      set_progress
          (record {
            stage = if was_read a written then verifying else downloading;
            bytes_downloaded = total;
            bytes_total = get_or a.bytes size;
            version = some version;
            error = none;
          })
          s,
    )

-- the content of the file, which is the artifact, or an error
unfoldable pub download_executable :
    Machine → Artifact → Url → String → Updater → Result Bytes × Updater
unfolding validate_artifact_url artifact_body downloaded and_then
download_executable m a manifest version s = downloaded m a version s (
    and_then (validate_artifact_url m.platform m.env a.url manifest)
      (λ url. and_then (m.artifact_server url) (artifact_body m a)))

-- the move of the staged directory to its place
unfoldable pub promoted : Machine → String → Result Bytes × Updater → Option String × Updater
unfolding set_progress
promoted m name (failed code, s) = (some code, s)
promoted m name (ok bytes, s) =
    let staged = set_progress (record s.progress { stage = staging }) s in
    elim m.disk_error [
      | some code ↦ (some code, staged)
      | none ↦ (
        none,
        record staged {
          dirs = record { name = name; executable = some bytes; modified = m.now } ∷ staged.dirs;
        },
      )
    ]

unfoldable pub is_content : Machine → String → Option Bytes → Bool
is_content m sha none = false
is_content m sha (some bytes) = m.sha256 bytes == sha

-- A directory that is there is used as it is, or refused.
unfoldable pub place_artifact :
    Machine → Release → Artifact → Url → String → Updater → Option String × Updater
unfolding download_executable promoted is_content executable_in has_dir artifact_dir
place_artifact m r a manifest sha s =
    let name = artifact_dir r a in
    if has_dir name s.dirs
    then if is_content m sha (executable_in name s.dirs)
      then (none, s)
      else (some "runtime_immutable_version_conflict", s)
    else promoted m name (download_executable m a manifest r.version s)

unfoldable pub written_meta :
    Machine → String → String → Option String × Updater → Option String × Updater
unfolding write_meta
written_meta m version name (some code, s) = (some code, s)
written_meta m version name (none, s) =
    write_meta m
      (record {
        current_version = some version;
        current_dir = some name;
        last_check_ms = m.now;
        last_update_ms = m.now;
      })
      s

-- the artifact, and its hash, where version and hash have their form
unfoldable pub installable : Machine → Release → Result (Artifact × String)
unfolding validate_version validate_hash is_artifact_dir artifact_dir and_then map_get
installable m r = and_then (validate_version (some (str r.version))) (λ version.
    elim (map_get m.platform_key r.artifacts) [
      | none ↦ failed "runtime_artifact_platform_unavailable"
      | some a ↦ and_then (validate_hash (some (str a.sha256))) (λ sha.
          if is_artifact_dir (artifact_dir r a)
          then ok (a, sha)
          else failed "invalid_runtime_artifact_dir")
    ])

unfoldable pub install_checked :
    Machine → Release → Url → Updater → Result (Artifact × String) → Option String × Updater
unfolding place_artifact written_meta artifact_dir
install_checked m r manifest s (failed code) = (some code, s)
install_checked m r manifest s (ok (a, sha)) =
    written_meta m r.version (artifact_dir r a) (place_artifact m r a manifest sha s)

-- the error, if there is one, and the state behind it
unfoldable pub install_version : Machine → Release → Url → Updater → Option String × Updater
unfolding installable install_checked
install_version m r manifest s = install_checked m r manifest s (installable m r)

-- newest first
unfoldable pub insert_by_age : Dir → List Dir → List Dir
insert_by_age d [] = d ∷ []
insert_by_age d (e ∷ es) =
    let later = insert_by_age d es in if ltb e.modified d.modified then d ∷ e ∷ es else e ∷ later

unfoldable pub sort_by_age : List Dir → List Dir
unfolding insert_by_age
sort_by_age [] = []
sort_by_age (d ∷ ds) = insert_by_age d (sort_by_age ds)

unfoldable pub is_candidate : Option String → Dir → Bool
unfolding is_artifact_dir
is_candidate active d = not (option_is active d.name) && is_artifact_dir d.name

-- Which directories go, where `keep` of them stay.
unfoldable pub outdated : ℕ → Option String → List Dir → List Dir
unfolding sort_by_age is_candidate
outdated keep active dirs =
    drop (keep - (if is_some active then 1 else 0))
      (sort_by_age (filter (is_candidate active) dirs))

unfoldable pub goes : Machine → List Dir → Dir → Bool
goes m old d = m.removable d.name && any (λ e. e.name == d.name) old

-- the directory of the current version
abbrev pub active_dir : Option VersionMeta → Option String
active_dir none = none
active_dir (some meta) = meta.current_dir

unfoldable pub prune_old_versions : Machine → ℕ → Updater → Updater
unfolding outdated goes
prune_old_versions m keep s =
    let old = outdated keep (active_dir s.meta) s.dirs in
    record s { dirs = filter (λ d. not (goes m old d)) s.dirs }
