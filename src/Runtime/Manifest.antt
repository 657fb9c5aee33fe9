-- ===== src/Runtime/Manifest.antt =====
-- The signed manifest and its artifacts (cc-runtime-updater.ts). The fields of an object stand in the
-- order of `Object.entries`; numbers are exact.
use agent_workflow_platform.Prelude.{
  ℕ, ◌*◌, ◌^◌, ◌/◌, ◌%◌, String, Bool, false, ◌&&◌, ◌||◌, not, List, [], ◌∷◌, Option, none, some,
  ◌⧺◌, ◌==◌, if◌then◌else◌, eqb, leb, ltb, any, is_some, option_is,
}
use agent_workflow_platform.Agent.Json.{
  Json, obj, str, number, Fields, end, field, Number, find_field, as_text,
}
use agent_workflow_platform.Agent.Config.{Result, ok, failed, and_then, Env, env_text, strip_prefix}
use agent_workflow_platform.Runtime.Text.{is_version, is_hash, lower_hash}

pub data Channel : Type 0 where
  stable : Channel
  insiders : Channel
  dev : Channel

unfoldable pub channel_name : Channel → String
channel_name stable = "stable"
channel_name insiders = "insiders"
channel_name dev = "dev"

is_word : String → String → Bool
unfolding strip_prefix
is_word word s = option_is (strip_prefix word s) ""

unfoldable pub resolve_channel : Env → Channel
unfolding is_word env_text
resolve_channel env =
    let raw = env_text env "AWP_AGENT_RUNTIME_CHANNEL" in
    if is_word "insiders" raw then insiders else if is_word "dev" raw then dev else stable

-- An artifact, whose kind is `executable`.
pub record Artifact : Type 0 where
  pub url : String
  pub sha256 : String
  pub bytes : Option ℕ

pub record Release : Type 0 where
  pub version : String
  pub channel : Channel
  pub min_desktop_version : Option String
  pub artifacts : List (String × Artifact)

abbrev pub max_artifact_bytes : ℕ
max_artifact_bytes = 512 * 1024 * 1024

unfoldable pub validate_version : Option Json → Result String
unfolding is_version
validate_version (some (str v)) = if is_version v then ok v else failed "invalid_runtime_version"
validate_version _ = failed "invalid_runtime_version"

unfoldable pub validate_hash : Option Json → Result String
unfolding is_hash lower_hash
validate_hash (some (str h)) =
    if is_hash h then ok (lower_hash h) else failed "invalid_runtime_sha256"
validate_hash _ = failed "invalid_runtime_sha256"

unfoldable pub as_record : Json → String → Result Fields
as_record (obj fields) label = ok fields
as_record _ label = failed ("invalid_" ⧺ label)

has_other : List String → Fields → Bool
has_other allowed end = false
has_other allowed (field k v rest) = not (any (λ a. a == k) allowed) || has_other allowed rest

lacks_some : List String → Fields → Bool
unfolding find_field
lacks_some [] fields = false
lacks_some (k ∷ ks) fields = not (is_some (find_field k fields)) || lacks_some ks fields

-- The fields, where their keys are allowed and the required ones are there.
unfoldable pub exact_keys : List String → List String → String → Fields → Result Fields
unfolding has_other lacks_some
exact_keys allowed required label fields =
    if has_other allowed fields
    then failed ("unexpected_" ⧺ label ⧺ "_field")
    else if lacks_some required fields
    then failed ("missing_" ⧺ label ⧺ "_field")
    else ok fields

-- An integer from 1 to the limit.
size_of_number : Number → Result (Option ℕ)
size_of_number n =
    let size = n.digits / 10 ^ n.places in
    if not n.negative
      && eqb (n.digits % 10 ^ n.places) 0
      && ltb 0 size
      && leb size max_artifact_bytes
    then ok (some size)
    else failed "invalid_artifact_size"

unfoldable pub artifact_size : Option Json → Result (Option ℕ)
unfolding size_of_number
artifact_size none = ok none
artifact_size (some (number n)) = size_of_number n
artifact_size (some v) = failed "invalid_artifact_size"

unfoldable pub artifact_of : Fields → Result Artifact
unfolding validate_hash artifact_size and_then as_text find_field
artifact_of fields =
    if not (option_is (as_text (find_field "kind" fields)) "executable")
    then failed "unsupported_artifact_kind"
    else elim (as_text (find_field "url" fields)) [
      | none ↦ failed "invalid_artifact_url"
      | some url ↦ and_then (validate_hash (find_field "sha256" fields)) (λ sha256.
          and_then (artifact_size (find_field "bytes" fields))
            (λ bytes. ok (record { url = url; sha256 = sha256; bytes = bytes })))
    ]

unfoldable pub parse_artifact : Json → Result Artifact
unfolding as_record exact_keys artifact_of and_then
parse_artifact value = and_then (as_record value "artifact") (λ fields.
    and_then
      (exact_keys ("kind" ∷ "url" ∷ "sha256" ∷ "bytes" ∷ []) ("kind" ∷ "url" ∷ "sha256" ∷ [])
        "artifact" fields)
      artifact_of)

unfoldable pub is_platform : String → Bool
is_platform key =
    any (λ p. p == key)
      ("win32-x64" ∷ "win32-arm64" ∷ "darwin-x64" ∷ "darwin-arm64" ∷ "linux-x64" ∷ "linux-arm64"
        ∷ [])

unfoldable pub parse_artifacts : Fields → Result (List (String × Artifact))
unfolding parse_artifact is_platform and_then
parse_artifacts end = ok []
parse_artifacts (field key value rest) =
    let more = parse_artifacts rest in
    if not (is_platform key)
    then failed "invalid_artifact_platform"
    else and_then (parse_artifact value)
        (λ artifact. and_then more (λ artifacts. ok ((key, artifact) ∷ artifacts)))

unfoldable pub min_desktop : Option Json → Result (Option String)
unfolding validate_version and_then
min_desktop none = ok none
min_desktop (some v) = and_then (validate_version (some v)) (λ version. ok (some version))

some_artifacts : List (String × Artifact) → Result (List (String × Artifact))
some_artifacts [] = failed "missing_runtime_artifacts"
some_artifacts (a ∷ rest) = ok (a ∷ rest)

artifacts_in : Option Json → Result (List (String × Artifact))
unfolding as_record parse_artifacts some_artifacts and_then
artifacts_in none = failed "invalid_artifacts"
artifacts_in (some v) =
    and_then (as_record v "artifacts") (λ fields. and_then (parse_artifacts fields) some_artifacts)

-- the manifest in these fields
unfoldable pub release_of : Channel → Fields → Result Release
unfolding validate_version min_desktop artifacts_in channel_name as_text find_field and_then
release_of channel fields = and_then (validate_version (find_field "version" fields)) (λ version.
    if not (option_is (as_text (find_field "channel" fields)) (channel_name channel))
    then failed "runtime_channel_mismatch"
    else and_then (min_desktop (find_field "min_desktop_version" fields)) (λ least.
      and_then (artifacts_in (find_field "artifacts" fields)) (λ artifacts. ok (record {
        version = version;
        channel = channel;
        min_desktop_version = least;
        artifacts = artifacts;
      }))))

-- The manifest in a text, of which JSON.parse made `parsed`.
unfoldable pub parse_signed_manifest : Option Json → Channel → Result Release
unfolding as_record exact_keys release_of and_then
parse_signed_manifest none channel = failed "invalid_signed_manifest_json"
parse_signed_manifest (some v) channel = and_then (as_record v "signed_manifest") (λ fields.
    and_then
      (exact_keys ("version" ∷ "channel" ∷ "min_desktop_version" ∷ "artifacts" ∷ [])
        ("version" ∷ "channel" ∷ "artifacts" ∷ []) "signed_manifest" fields)
      (release_of channel))
