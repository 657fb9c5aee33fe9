-- ===== src/Agent/Config.antt =====
-- What the wrapper takes from the environment of its process: the command of the agent, its
-- arguments and its environment (cc-wrapper.ts). `JSON.parse`, the URL parser, Node's `path` and the
-- runtime that the updater manages are parameters.
use Prim.Native.Char.{Char, code}
use Prim.Native.String.{[], ◌∷◌}
use agent_workflow_platform.Prelude.{
  ◌≡◌, ◌⊎◌, refl, inl, inr, ℕ, suc, ◌+◌, String, Bool, true, false, ◌&&◌, ◌||◌, not, List, Option,
  none, some, get_or, ◌==◌, if◌then◌else◌, eqb, leb, ltb, any, truthy, trim, is_space, utf16_length,
  option_is,
}
use agent_workflow_platform.Agent.Json.{Json, str, arr, Elements, no_more, element}

-- A value, or the code of the error that is thrown.
pub data Result (A : Type 0) : Type 0 where
  ok : A → Result A
  failed : String → Result A

pub Result-cases :
    {A : Type 0} (r : Result A) → ((code : String) × (r ≡ failed code)) ⊎ ((a : A) × (r ≡ ok a))
Result-cases (failed code) = inl (code, refl)
Result-cases (ok a) = inr (a, refl)

pub failed≢ok : {A : Type 0} {code : String} {a : A} → failed code ≡ ok a → ⊥
failed≢ok e = cc

unfoldable pub and_then : {A B : Type 0} → Result A → (A → Result B) → Result B
and_then (ok a) f = f a
and_then (failed code) f = failed code

abbrev pub Env : Type 0
Env = String → Option String

-- `(process.env[key] ?? '').trim()`
unfoldable pub env_text : Env → String → String
env_text env key = trim (get_or (env key) "")

unfoldable pub lower : ℕ → ℕ
lower c = if leb b'A' c && leb c b'Z' then c + 32 else c

-- the rest behind a prefix in small letters, without regard to case
unfoldable pub strip_prefix : String → String → Option String
unfolding lower
strip_prefix [] s = some s
strip_prefix (c ∷ t) [] = none
strip_prefix (c ∷ t) (d ∷ s) = if eqb (code c) (lower (code d)) then strip_prefix t s else none

-- what `[^\s"'<>]` leaves out
ends_url : Char → Bool
ends_url c =
    is_space (code c) || eqb (code c) 34 || eqb (code c) 39 || eqb (code c) 60 || eqb (code c) 62

until_end : String → String
unfolding ends_url
until_end [] = ""
until_end (c ∷ s) = let rest = until_end s in if ends_url c then "" else c ∷ rest

-- whether a text goes on with one unit of a URL at least
goes_on : Option String → Bool
unfolding ends_url
goes_on none = false
goes_on (some []) = false
goes_on (some (c ∷ s)) = not (ends_url c)

starts_url : String → Bool
unfolding strip_prefix goes_on
starts_url s = goes_on (strip_prefix "http://" s) || goes_on (strip_prefix "https://" s)

-- `value.match(/https?:\/\/[^\s"'<>]+/gi)`, where `inside` says that a match is going on
unfoldable pub url_candidates : Bool → String → List String
unfolding ends_url until_end starts_url
url_candidates inside [] = List.[]
url_candidates inside (c ∷ s) =
    let within = url_candidates true s in
    let outside = url_candidates false s in
    if inside
    then (if ends_url c then outside else within)
    else if starts_url (c ∷ s)
    then List.◌∷◌ (until_end (c ∷ s)) within
    else outside

-- `parseConfiguredArgs` and its like compare with '1'
unfoldable pub opted_in : Env → String → Bool
opted_in env key = option_is (env key) "1"

-- A parser's answer; the host name is in small letters.
pub record Parsers : Type 0 where
  pub parse_json : String → Option Json
  pub hostname : String → Option String

is_loopback : String → Bool
is_loopback host = host == "localhost" || host == "127.0.0.1" || host == "[::1]"

-- the test of one match; what is no URL counts as remote
is_remote : Parsers → String → Bool
unfolding is_loopback
is_remote p candidate = elim (p.hostname candidate) [
  | none ↦ true
  | some host ↦ not (is_loopback host)
]

unfoldable pub is_remote_http_url : Parsers → String → Bool
unfolding is_remote url_candidates
is_remote_http_url p value = any (is_remote p) (url_candidates false value)

-- the texts of an array, where all its items are texts of at most 8,192 units
unfoldable pub argument_texts : Elements → Option (List String)
argument_texts no_more = some List.[]
argument_texts (element (str s) rest) =
    let more = argument_texts rest in
    if ltb 8192 (utf16_length s)
    then none
    else elim more [ none ↦ none | some texts ↦ some (List.◌∷◌ s texts) ]
argument_texts (element _ rest) = none

element_count : Elements → ℕ
element_count no_more = 0
element_count (element v rest) = suc (element_count rest)

abbrev args_error : {A : Type 0} → Result A
args_error = failed "invalid_cli_args_json"

-- the check of the addresses in the arguments
unfoldable pub checked_args : Parsers → Env → List String → Result (List String)
unfolding is_remote_http_url opted_in
checked_args p env args =
    if any (is_remote_http_url p) args && not (opted_in env "AWP_AGENT_REMOTE_API_OPT_IN")
    then failed "remote_api_requires_explicit_opt_in"
    else ok args

unfoldable pub parse_configured_args : Parsers → Env → Result (List String)
unfolding env_text argument_texts element_count checked_args
parse_configured_args p env =
    let raw = env_text env "AWP_AGENT_CLI_ARGS_JSON" in
    if truthy raw
    then elim (p.parse_json raw) [
      | some (arr items) ↦
          if ltb 128 (element_count items) then args_error else elim (argument_texts items) [
            | none ↦ args_error
            | some args ↦ checked_args p env args
          ]
      | _ ↦ args_error
    ]
    else ok List.[]

is_command_char : ℕ → Bool
is_command_char c =
    (leb b'A' c && leb c b'Z')
    || (leb b'a' c && leb c b'z')
    || (leb b'0' c && leb c b'9')
    || eqb c b'.'
    || eqb c b'_'
    || eqb c b'-'

all_chars : (ℕ → Bool) → String → Bool
all_chars p [] = true
all_chars p (c ∷ s) = p (code c) && all_chars p s

pub record Invocation : Type 0 where
  pub exe : String
  pub prefix_args : List String
  pub managed_runtime : Bool

-- Node's `path`, and `getManagedCliPath`, which is `none` too where it throws.
pub record Paths : Type 0 where
  pub is_absolute : String → Bool
  pub resolve : String → String
  pub managed : Option String

invocation : String → Bool → List String → Result Invocation
invocation exe managed args =
    ok (record { exe = exe; prefix_args = args; managed_runtime = managed })

-- the managed runtime; what is thrown on the way to it is dropped
managed_invocation : Parsers → Env → Option String → Result Invocation
unfolding parse_configured_args invocation
managed_invocation p env none = failed "runtime_unavailable"
managed_invocation p env (some exe) =
    if truthy exe
    then elim (parse_configured_args p env) [
      | ok args ↦ invocation exe true args
      | failed code ↦ failed "runtime_unavailable"
    ]
    else failed "runtime_unavailable"

unfoldable pub resolve_cli_invocation : Parsers → Paths → Env → Result Invocation
unfolding env_text parse_configured_args all_chars is_command_char and_then invocation
    managed_invocation
resolve_cli_invocation p paths env =
    let path = env_text env "AWP_AGENT_CLI_EXECUTABLE" in
    let command = env_text env "AWP_AGENT_CLI_COMMAND" in
    if truthy path
    then (if paths.is_absolute path
        then and_then (parse_configured_args p env) (invocation (paths.resolve path) false)
        else failed "cli_executable_must_be_absolute")
    else if truthy command
    then (if all_chars is_command_char command
        then and_then (parse_configured_args p env) (invocation command false)
        else failed "invalid_cli_command")
    else managed_invocation p env paths.managed
