-- ===== src/Agent/Environment.antt =====
-- The environment of the agent's process: `buildCcEnv` of cc-wrapper.ts.
pub mod Sources
pub mod Consent
use Prim.Native.Char.{code}
use Prim.Native.String
use agent_workflow_platform.Prelude.{
  ℕ, suc, String, Bool, true, false, ◌&&◌, ◌||◌, not, List, [], ◌∷◌, ◌++◌, Option, none, some, ◌==◌,
  if◌then◌else◌, eqb, leb, ltb, truthy, utf16_length, map_set,
}
use agent_workflow_platform.Agent.Json.{Json, str, obj, Fields, end, field}
use agent_workflow_platform.Agent.Config.{
  Result, ok, failed, and_then, Env, env_text, Parsers, opted_in, is_remote_http_url,
}

-- `SAFE_PARENT_ENV_KEYS`
abbrev pub safe_parent_env_keys : List String
safe_parent_env_keys =
    "PATH" ∷ "Path" ∷ "PATHEXT" ∷ "SystemRoot" ∷ "WINDIR" ∷ "COMSPEC" ∷ "TEMP" ∷ "TMP" ∷ "HOME"
    ∷ "USERPROFILE" ∷ "LOCALAPPDATA" ∷ "APPDATA" ∷ "LANG" ∷ "LC_ALL" ∷ "TERM" ∷ "COLORTERM" ∷ []

-- the loop over the keys
unfoldable pub copy_keys : Env → List String → List (String × String) → List (String × String)
copy_keys env [] built = built
copy_keys env (key ∷ keys) built = elim (env key) [
  | none ↦ copy_keys env keys built
  | some value ↦ copy_keys env keys (map_set key value built)
]

unfoldable pub build_safe_parent_env : Env → List (String × String)
unfolding copy_keys
build_safe_parent_env env = copy_keys env safe_parent_env_keys []

is_letter : ℕ → Bool
is_letter c = (leb b'A' c && leb c b'Z') || (leb b'a' c && leb c b'z') || eqb c b'_'

is_name_rest : String → Bool
unfolding is_letter
is_name_rest String.[] = true
is_name_rest (String.◌∷◌ c s) =
    (is_letter (code c) || (leb b'0' (code c) && leb (code c) b'9')) && is_name_rest s

-- `/^[A-Za-z_][A-Za-z0-9_]*$/`
unfoldable pub is_env_name : String → Bool
unfolding is_letter is_name_rest
is_env_name String.[] = false
is_env_name (String.◌∷◌ c s) = is_letter (code c) && is_name_rest s

unfoldable pub field_count : Fields → ℕ
field_count end = 0
field_count (field k v rest) = suc (field_count rest)

-- What the loop over the entries has built, and whether a remote address was among them.
pub record Configured : Type 0 where
  pub values : List (String × String)
  pub contains_remote : Bool

-- `configured[key] = item`; a text that is written to `__proto__` is dropped
unfoldable pub assign : String → String → List (String × String) → List (String × String)
assign key item values = if key == "__proto__" then values else map_set key item values

unfoldable pub add_entries : Parsers → Fields → Configured → Result Configured
unfolding is_env_name is_remote_http_url assign
add_entries p end c = ok c
add_entries p (field key (str item) rest) c =
    let more = add_entries p rest (record {
      values = assign key item c.values;
      contains_remote = c.contains_remote || is_remote_http_url p item;
    }) in
    if is_env_name key
    then (if ltb 32768 (utf16_length item) then failed "cli_env_value_too_large" else more)
    else failed "invalid_cli_env_entry"
add_entries p (field key _ rest) c = failed "invalid_cli_env_entry"

unfoldable pub checked_env : Env → Configured → Result (List (String × String))
unfolding opted_in
checked_env env c =
    if c.contains_remote && not (opted_in env "AWP_AGENT_REMOTE_API_OPT_IN")
    then failed "remote_api_requires_explicit_opt_in"
    else ok c.values

-- the object that was parsed, or what else was
unfoldable pub configured_env : Parsers → Env → Option Json → Result (List (String × String))
unfolding field_count add_entries checked_env and_then
configured_env p env (some (obj fields)) =
    if ltb 128 (field_count fields)
    then failed "cli_env_too_large"
    else and_then (add_entries p fields (record { values = []; contains_remote = false }))
        (checked_env env)
configured_env p env _ = failed "invalid_cli_env_json"

unfoldable pub parse_explicit_cli_env : Parsers → Env → Result (List (String × String))
unfolding env_text configured_env
parse_explicit_cli_env p env =
    let raw = env_text env "AWP_AGENT_CLI_ENV_JSON" in
    if truthy raw then configured_env p env (p.parse_json raw) else ok []

-- `{ ...a, ...b }`
unfoldable pub spread : List (String × String) → List (String × String) → List (String × String)
spread a [] = a
spread a ((key, value) ∷ rest) = spread (map_set key value a) rest

unfoldable pub build_cc_env : Parsers → Env → Result (List (String × String))
unfolding parse_explicit_cli_env build_safe_parent_env spread and_then
build_cc_env p env =
    and_then (parse_explicit_cli_env p env)
      (λ values. ok (spread (build_safe_parent_env env) values))
