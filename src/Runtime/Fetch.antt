-- ===== src/Runtime/Fetch.antt =====
-- How the manifest is fetched and when it is believed (cc-runtime-updater.ts). The URL parser,
-- `Buffer.from`, JSON.parse, `node:crypto` and the server are parameters.
use agent_workflow_platform.Prelude.{
  ℕ, ◌+◌, ◌*◌, String, Bool, true, false, ◌&&◌, ◌||◌, not, List, [], ◌∷◌, ◌++◌, length, Option,
  none, some, get_or, ◌⧺◌, ◌==◌, if◌then◌else◌, eqb, ltb, leb, any, truthy, trim, decimal, map_get,
}
use agent_workflow_platform.Agent.Json.{Json, null, bool, str, obj, find_field}
use agent_workflow_platform.Agent.Config.{Result, ok, failed, and_then, Env, env_text, opted_in}
use agent_workflow_platform.Runtime.Text.{is_base64, includes, split_commas}
use agent_workflow_platform.Runtime.Manifest.{
  Channel, Artifact, Release, as_record, exact_keys, parse_signed_manifest,
}

abbrev pub Bytes : Type 0
Bytes = List ℕ

pub record Url : Type 0 where
  pub href : String
  pub protocol : String
  pub username : String
  pub password : String
  pub hash : String
  pub origin : String

-- A public key; `is_ed25519` is the test of its kind.
pub record PublicKey : Type 0 where
  pub is_ed25519 : Bool
  pub material : Bytes

-- What is called outside: `safe_size s` is `Number(s)` where that is a safe integer that is not
-- negative, `text_of` is `String` of numbers and arrays.
pub record Platform : Type 0 where
  pub parse_url : String → Option Url
  pub parse_json : String → Option Json
  pub text_of : Json → String
  pub decode : String → Bytes
  pub utf8 : Bytes → String
  pub safe_size : String → Option ℕ
  pub key_of_pem : String → Option PublicKey
  pub key_of_der : Bytes → Option PublicKey
  pub verify : PublicKey → Bytes → Bytes → Bool

-- A response; each piece of its body is bytes or the error of reading it.
pub record Response : Type 0 where
  pub is_ok : Bool
  pub status : ℕ
  pub content_length : Option String
  pub body : Option (List (Result Bytes))

abbrev pub max_manifest_bytes : ℕ
max_manifest_bytes = 256 * 1024

unfoldable pub decode_base64 : Platform → String → String → ℕ → Result Bytes
unfolding is_base64
decode_base64 p value label limit =
    let decoded = p.decode value in
    if not (is_base64 value)
    then failed ("invalid_" ⧺ label ⧺ "_base64")
    else if eqb (length decoded) 0 || ltb limit (length decoded)
    then failed ("invalid_" ⧺ label ⧺ "_size")
    else ok decoded

abbrev key_made : Option PublicKey → Result PublicKey
key_made none = failed "invalid_runtime_public_key"
key_made (some key) = if key.is_ed25519 then ok key else failed "runtime_public_key_must_be_ed25519"

unfoldable pub parse_pinned_public_key : Platform → Env → Result PublicKey
unfolding env_text includes decode_base64 and_then
parse_pinned_public_key p env =
    let raw = env_text env "AWP_AGENT_RUNTIME_PUBLIC_KEY" in
    if not (truthy raw)
    then failed "runtime_public_key_unconfigured"
    else if includes "BEGIN PUBLIC KEY" raw
    then key_made (p.key_of_pem raw)
    else and_then (decode_base64 p raw "public_key" (16 * 1024))
        (λ der. key_made (p.key_of_der der))

unfoldable pub is_bare : Url → Bool
is_bare u = not (truthy u.username || truthy u.password || truthy u.hash)

unfoldable pub runtime_manifest_url : Platform → Env → Result Url
unfolding env_text is_bare
runtime_manifest_url p env =
    let raw = env_text env "AWP_AGENT_RUNTIME_MANIFEST_URL" in
    if not (truthy raw) then failed "runtime_manifest_unconfigured" else elim (p.parse_url raw) [
      | none ↦ failed "invalid_runtime_manifest_url"
      | some u ↦
          if not (u.protocol == "https:")
          then failed "runtime_manifest_requires_https"
          else if is_bare u
          then ok u
          else failed "invalid_runtime_manifest_url"
    ]

has_origin : Platform → String → String → Bool
has_origin p origin item =
    let text = trim item in
    truthy text && (elim (p.parse_url text) [ none ↦ false | some u ↦ u.origin == origin ])

-- Whether another origin may serve artifacts.
unfoldable pub is_listed_origin : Platform → Env → String → Bool
unfolding has_origin opted_in split_commas
is_listed_origin p env origin =
    opted_in env "AWP_AGENT_RUNTIME_CROSS_ORIGIN_OPT_IN"
    && any (has_origin p origin)
        (split_commas (get_or (env "AWP_AGENT_RUNTIME_ARTIFACT_ORIGINS") ""))

unfoldable pub validate_artifact_url : Platform → Env → String → Url → Result Url
unfolding is_bare is_listed_origin
validate_artifact_url p env raw manifest = elim (p.parse_url raw) [
  | none ↦ failed "invalid_artifact_url"
  | some u ↦
      if not (u.protocol == "https:")
      then failed "runtime_artifact_requires_https"
      else if not (is_bare u)
      then failed "invalid_artifact_url"
      else if u.origin == manifest.origin || is_listed_origin p env u.origin
      then ok u
      else failed "runtime_artifact_origin_not_allowed"
]

-- the loop of `readResponseBytesLimited`, behind `total` bytes
unfoldable pub read_pieces : ℕ → String → ℕ → List (Result Bytes) → Result Bytes
unfolding and_then
read_pieces limit too_large total [] = ok []
read_pieces limit too_large total (failed code ∷ rest) = failed code
read_pieces limit too_large total (ok chunk ∷ rest) =
    let more = read_pieces limit too_large (total + length chunk) rest in
    if ltb limit (total + length chunk)
    then failed too_large
    else and_then more (λ (bytes : Bytes). ok (chunk ++ bytes))

-- the check of the announced length
is_announced_within : Platform → ℕ → Option String → Bool
is_announced_within p limit none = true
is_announced_within p limit (some raw) =
    not (truthy raw) || (elim (p.safe_size raw) [ none ↦ false | some n ↦ leb n limit ])

not_empty : String → Bytes → Result Bytes
not_empty code [] = failed code
not_empty code (b ∷ bytes) = ok (b ∷ bytes)

unfoldable pub read_response_bytes_limited :
    Platform → Response → ℕ → String → String → Result Bytes
unfolding is_announced_within read_pieces not_empty and_then
read_response_bytes_limited p r limit too_large empty =
    if not (is_announced_within p limit r.content_length) then failed too_large else elim r.body [
      | none ↦ failed empty
      | some pieces ↦ and_then (read_pieces limit too_large 0 pieces) (not_empty empty)
    ]

-- `String(v)`
string_of : Platform → Option Json → String
string_of p none = "undefined"
string_of p (some null) = "null"
string_of p (some (bool b)) = if b then "true" else "false"
string_of p (some (str s)) = s
string_of p (some (obj fields)) = "[object Object]"
string_of p (some v) = p.text_of v

-- the signed bytes and the signature in a text
unfoldable pub envelope_of : Platform → String → Result (Bytes × Bytes)
unfolding as_record exact_keys string_of decode_base64 and_then find_field
envelope_of p text = elim (p.parse_json text) [
  | none ↦ failed "invalid_runtime_manifest_envelope"
  | some v ↦ and_then (as_record v "runtime_manifest_envelope") (λ fields.
      and_then
        (exact_keys ("signed" ∷ "signature" ∷ []) ("signed" ∷ "signature" ∷ []) "envelope" fields)
        (λ keys.
          and_then
            (decode_base64 p (string_of p (find_field "signed" keys)) "signed_manifest"
              max_manifest_bytes)
            (λ signed.
              and_then
                (decode_base64 p (string_of p (find_field "signature" keys)) "signature" 1024)
                (λ signature. ok (signed, signature)))))
]

-- the test of the signature
unfoldable pub checked_signature : Platform → PublicKey → Bytes × Bytes → Result Bytes
checked_signature p key (signed, signature) =
    if p.verify key signed signature then ok signed else failed "runtime_manifest_signature_invalid"

-- the test of the address of an artifact, where there is one
unfoldable pub with_artifact : Platform → Env → Url → Release → Option Artifact → Result Release
unfolding validate_artifact_url and_then
with_artifact p env manifest r none = failed "runtime_artifact_platform_unavailable"
with_artifact p env manifest r (some a) =
    and_then (validate_artifact_url p env a.url manifest) (λ u. ok r)

-- the test of the artifact for this machine
unfoldable pub usable_release : Platform → Env → String → Url → Release → Result Release
unfolding with_artifact map_get
usable_release p env machine manifest r =
    with_artifact p env manifest r (map_get machine r.artifacts)

-- the bytes of a response
unfoldable pub manifest_bytes : Platform → Response → Result Bytes
unfolding read_response_bytes_limited decimal
manifest_bytes p r =
    if r.is_ok
    then read_response_bytes_limited p r max_manifest_bytes "runtime_manifest_too_large"
        "runtime_manifest_empty"
    else failed ("runtime_manifest_http_" ⧺ decimal r.status)

-- `fetchLatestVersion`, of the machine with this platform key
unfoldable pub fetch_latest_version :
    Platform → Env → String → (Url → Result Response) → Channel → Result Release
unfolding runtime_manifest_url parse_pinned_public_key manifest_bytes envelope_of checked_signature
    parse_signed_manifest usable_release and_then
fetch_latest_version p env machine server channel =
    and_then (runtime_manifest_url p env) (λ manifest.
      and_then (parse_pinned_public_key p env) (λ key. and_then (server manifest) (λ response.
        and_then (manifest_bytes p response) (λ bytes.
          and_then (envelope_of p (p.utf8 bytes)) (λ envelope.
            and_then (checked_signature p key envelope) (λ signed.
              and_then (parse_signed_manifest (p.parse_json (p.utf8 signed)) channel)
                (λ release. usable_release p env machine manifest release)))))))
