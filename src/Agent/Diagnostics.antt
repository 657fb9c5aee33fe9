-- ===== src/Agent/Diagnostics.antt =====
-- The diagnostics of cc-wrapper.ts: what is written of a value, and files with a limit. The file
-- system's answers are arguments.
pub mod Scrubbed
use Prim.Native.Char.{Char, code}
use Prim.Native.String
use agent_workflow_platform.Prelude.{
  ℕ, zero, suc, ◌+◌, ◌*◌, ◌≤◌, String, Bool, true, false, ◌&&◌, ◌||◌, not, List, [], ◌∷◌, Option,
  none, some, ◌==◌, ◌≡◌, refl, arith, if◌then◌else◌, eqb, leb, ltb, any, is_some, get_or,
  Bool-cases, inl, inr, truthy,
}
use agent_workflow_platform.Agent.Config.{strip_prefix}
use agent_workflow_platform.Agent.Json.{Number}

-- `typeof` of what is neither null, a text, a number, a boolean nor an object.
pub data TypeName : Type 0 where
  undefined function symbol bigint : TypeName

unfoldable pub type_name : TypeName → String
type_name undefined = "undefined"
type_name function = "function"
type_name symbol = "symbol"
type_name bigint = "bigint"

-- A value as it reaches the diagnostics: what JSON has, bytes, or something else with its type.
mutual
  pub data Value : Type 0 where
    null : Value
    boolean : Bool → Value
    number : Number → Value
    text : String → Value
    buffer : ℕ → Value
    array : ℕ → Value
    object : Properties → Value
    other : TypeName → Value

  pub data Properties : Type 0 where
    end : Properties
    property : String → Value → Properties → Properties

-- What is written: a placeholder, a size, a number or a safe text.
mutual
  pub data Summary : Type 0 where
    null : Summary
    boolean : Bool → Summary
    number : Number → Summary
    plain : String → Summary
    bytes : String → ℕ → Summary
    count : ℕ → Summary
    type_only : String → Summary
    object : Summaries → Summary

  pub data Summaries : Type 0 where
    end : Summaries
    entry : String → Summary → Summaries → Summaries

-- the length in UTF-8
utf8_length : String → ℕ
utf8_length String.[] = 0
utf8_length (String.◌∷◌ c s) =
    (if ltb (code c) 0x80
      then 1
      else if ltb (code c) 0x800
      then 2
      else if ltb (code c) 0x10000
      then 3
      else 4)
    + utf8_length s

is_plain_char : ℕ → Bool
is_plain_char c =
    (leb b'A' c && leb c b'Z')
    || (leb b'a' c && leb c b'z')
    || (leb b'0' c && leb c b':')
    || eqb c b'_'
    || eqb c b'.'
    || eqb c b'-'

plain_up_to : ℕ → String → Bool
plain_up_to n String.[] = true
plain_up_to zero (String.◌∷◌ c s) = false
plain_up_to (suc n) (String.◌∷◌ c s) = is_plain_char (code c) && plain_up_to n s

-- `/^[A-Za-z0-9_.:-]{1,80}$/`
unfoldable pub is_identifier : String → Bool
unfolding plain_up_to is_plain_char
is_identifier s = truthy s && plain_up_to 80 s

-- `private.?key`, from here on
private_key : String → Bool
private_key s = elim (strip_prefix "private" s) [
  | none ↦ false
  | some rest ↦ is_some (strip_prefix "key" rest) || behind_one rest
]
  where
    behind_one : String → Bool
    behind_one String.[] = false
    behind_one (String.◌∷◌ c rest) = not (eqb (code c) 10) && is_some (strip_prefix "key" rest)

-- `/token|secret|password|credential|authorization|cookie|private.?key/i`
unfoldable pub names_secret : String → Bool
unfolding private_key
names_secret String.[] = false
names_secret (String.◌∷◌ c s) =
    is_some (strip_prefix "token" (String.◌∷◌ c s))
    || is_some (strip_prefix "secret" (String.◌∷◌ c s))
    || is_some (strip_prefix "password" (String.◌∷◌ c s))
    || is_some (strip_prefix "credential" (String.◌∷◌ c s))
    || is_some (strip_prefix "authorization" (String.◌∷◌ c s))
    || is_some (strip_prefix "cookie" (String.◌∷◌ c s))
    || private_key (String.◌∷◌ c s)
    || names_secret s

-- `_SAFE_DIAGNOSTIC_KEYS`
abbrev pub safe_diagnostic_keys : List String
safe_diagnostic_keys =
    "bytes" ∷ "code" ∷ "count" ∷ "elapsed_ms" ∷ "errno" ∷ "exitCode" ∷ "isBadBinary" ∷ "kind"
    ∷ "lastEventType" ∷ "malformedLines" ∷ "retryCount" ∷ "signal" ∷ "stage" ∷ "status"
    ∷ "turnInFlight" ∷ "type" ∷ []

unfoldable pub safe_text : String → Summary
unfolding is_identifier names_secret utf8_length
safe_text s =
    if is_identifier s
    then (if names_secret s then Summary.plain "[redacted]" else Summary.plain s)
    else Summary.bytes "string" (utf8_length s)

-- `_safeDiagnosticScalar`
unfoldable pub safe_diagnostic_scalar : Value → Option Summary
unfolding safe_text
safe_diagnostic_scalar Value.null = some Summary.null
safe_diagnostic_scalar (Value.boolean b) = some (Summary.boolean b)
safe_diagnostic_scalar (Value.number n) = some (Summary.number n)
safe_diagnostic_scalar (Value.text s) = some (safe_text s)
safe_diagnostic_scalar _ = none

-- a property that is left out, or is written
abbrev pub put : String → Option Summary → Summaries → Summaries
put key none rest = rest
put key (some v) rest = entry key v rest

-- `nested && typeof nested === 'object'`
abbrev pub is_object : Value → Bool
is_object (Value.object ps) = true
is_object (Value.array n) = true
is_object (Value.buffer n) = true
is_object _ = false

-- `_structuredDiagnosticValue`, and its loop
unfoldable mutual
  unfolding utf8_length safe_diagnostic_scalar type_name

  pub structured : ℕ → Value → Summary
  structured depth (Value.text s) =
      if ltb 2 depth then Summary.plain "[truncated]" else Summary.bytes "string" (utf8_length s)
  structured depth (Value.buffer n) =
      if ltb 2 depth then Summary.plain "[truncated]" else Summary.bytes "buffer" n
  structured depth Value.null = if ltb 2 depth then Summary.plain "[truncated]" else Summary.null
  structured depth (Value.number n) =
      if ltb 2 depth then Summary.plain "[truncated]" else Summary.number n
  structured depth (Value.boolean b) =
      if ltb 2 depth then Summary.plain "[truncated]" else Summary.boolean b
  structured depth (Value.array n) =
      if ltb 2 depth then Summary.plain "[truncated]" else Summary.count n
  structured depth (Value.other type) =
      if ltb 2 depth then Summary.plain "[truncated]" else Summary.type_only (type_name type)
  structured depth (Value.object ps) =
      let inner = structured_properties depth ps in
      if ltb 2 depth then Summary.plain "[truncated]" else Summary.object inner

  pub structured_properties : ℕ → Properties → Summaries
  structured_properties depth Properties.end = Summaries.end
  structured_properties depth (property key v ps) =
      let rest = structured_properties depth ps in
      let nested = structured (depth + 1) v in
      let written = if is_object v then some nested else safe_diagnostic_scalar v in
      if any (λ k. k == key) safe_diagnostic_keys then put key written rest else rest

-- A diagnostic file and the one it was rotated to, with their lengths, where they exist.
pub record LogFile : Type 0 where
  pub size : Option ℕ
  pub rotated : Option ℕ

-- Which calls of the file system work: the look at the file, the removal of the rotated file, the
-- renaming, the writing.
pub record Works : Type 0 where
  pub stat : Bool
  pub unlink : Bool
  pub rename : Bool
  pub append : Bool

-- the line at the end of a file of a length
append_line : Works → ℕ → ℕ → LogFile → ℕ × LogFile
append_line works line current f =
    if works.append then (current + line, record f { size = some (current + line) }) else (0, f)

-- the rotation, and the line in the new file
rotate_line : Works → ℕ → ℕ → LogFile → ℕ × LogFile
unfolding append_line
rotate_line works line current f =
    let unlinked = if works.unlink then record f { rotated = none } else f in
    if works.rename
    then append_line works line 0 (record { size = none; rotated = f.size })
    else (current, unlinked)

-- `_appendCappedJsonLine`, with the length of the line
unfoldable pub append_capped_json_line : Works → ℕ → ℕ → Bool → LogFile → ℕ × LogFile
unfolding append_line rotate_line
append_capped_json_line works line max_bytes rotate f =
    let current = get_or f.size 0 in
    if ltb max_bytes line || not works.stat
    then (0, f)
    else if ltb max_bytes (current + line)
    then (if rotate then rotate_line works line current f else (current, f))
    else append_line works line current f

-- Neither file is longer than the limit.
abbrev pub IsCapped : ℕ → LogFile → Type 0
IsCapped max_bytes f = (get_or f.size 0 ≤ max_bytes) × (get_or f.rotated 0 ≤ max_bytes)

-- Behind any line, whatever calls of the file system fail, neither the file nor the rotated file is
-- longer than the limit, if they were not before.
pub append_capped_json_line-IsCapped :
    (works : Works) (line max_bytes : ℕ) (rotate : Bool) (f : LogFile)
    → IsCapped max_bytes f
    → IsCapped max_bytes (append_capped_json_line works line max_bytes rotate f).1
unfolding append_capped_json_line append_line rotate_line
append_capped_json_line-IsCapped works line max_bytes rotate f h = ground (arith, h)
