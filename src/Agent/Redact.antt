-- ===== src/Agent/Redact.antt =====
-- `redactArgv` of cc-wrapper.ts. The URL parser is a parameter.
use Prim.Native.Char.{Char, code}
use Prim.Native.String.{[], ◌∷◌}
use agent_workflow_platform.Prelude.{
  ℕ, last?, suc, String, Bool, true, false, ◌||◌, not, List, Option, none, some, ◌==◌, ◌⧺◌, ◌≡◌,
  refl, if◌then◌else◌, Bool-cases, inl, inr, eqb, is_some, is_space, truthy, length, get_elem?,
  ◌++◌,
}
use agent_workflow_platform.Agent.Config.{strip_prefix}

-- the first of two matches
first : Option String → Option String → Option String
first none o = o
first (some s) o = some s

-- the rest behind `api[-_]?key|token|secret|password|authorization|credential`, in any case; no
-- alternative is the start of another
after_word : String → Option String
unfolding strip_prefix first
after_word s = first (strip_prefix "api-key" s) (
    first (strip_prefix "api_key" s) (
      first (strip_prefix "apikey" s) (
        first (strip_prefix "token" s) (
          first (strip_prefix "secret" s) (
            first (strip_prefix "password" s)
              (first (strip_prefix "authorization" s) (strip_prefix "credential" s)))))))

-- the rest behind `--?`
after_dashes : String → Option String
after_dashes [] = none
after_dashes (c ∷ []) = if eqb (code c) 45 then some [] else none
after_dashes (c ∷ d ∷ s) =
    if eqb (code c) 45 then (if eqb (code d) 45 then some s else some (d ∷ s)) else none

-- the rest behind a secret's flag
after_flag : String → Option String
unfolding after_dashes after_word
after_flag arg = elim (after_dashes arg) [ none ↦ none | some rest ↦ after_word rest ]

is_end : Option String → Bool
is_end none = false
is_end (some s) = not (truthy s)

starts_eq : Option String → Bool
starts_eq none = false
starts_eq (some []) = false
starts_eq (some (c ∷ s)) = eqb (code c) 61

-- `^--?(?:…)$`
unfoldable pub is_secret_flag : String → Bool
unfolding after_flag is_end
is_secret_flag arg = is_end (after_flag arg)

-- `^--?(?:…)=`
unfoldable pub is_secret_assignment : String → Bool
unfolding after_flag starts_eq
is_secret_assignment arg = starts_eq (after_flag arg)

skip_quote : String → String
skip_quote [] = ""
skip_quote (c ∷ s) = if eqb (code c) 34 || eqb (code c) 39 then s else c ∷ s

-- `\s*[:=]`
assigns : String → Bool
assigns [] = false
assigns (c ∷ s) =
    let more = assigns s in if is_space (code c) then more else eqb (code c) 58 || eqb (code c) 61

assigns_after : Option String → Bool
unfolding skip_quote assigns
assigns_after none = false
assigns_after (some s) = assigns (skip_quote s)

-- `["']?(?:…)["']?\s*[:=]` anywhere; the first quote is optional, so that it need not be looked for
unfoldable pub holds_secret : String → Bool
unfolding after_word assigns_after
holds_secret [] = false
holds_secret (c ∷ s) = assigns_after (after_word (c ∷ s)) || holds_secret s

-- a unit that `.` does not match
is_line_end : Char → Bool
is_line_end c = eqb (code c) 10 || eqb (code c) 13 || eqb (code c) 0x2028 || eqb (code c) 0x2029

from_line_end : String → String
unfolding is_line_end
from_line_end [] = ""
from_line_end (c ∷ s) = let rest = from_line_end s in if is_line_end c then c ∷ s else rest

-- `arg.replace(/=.*/, '=<redacted>')`
unfoldable pub redact_assignment : String → String
unfolding from_line_end
redact_assignment [] = ""
redact_assignment (c ∷ s) =
    let rest = redact_assignment s in
    if eqb (code c) 61 then "=<redacted>" ⧺ from_line_end s else c ∷ rest

-- What the code uses of a parsed URL.
pub record Urls : Type 1 where
  pub Url : Type 0
  pub parse : String → Option Url
  pub protocol : Url → String
  pub username : Url → String
  pub password : Url → String
  pub set_username : String → Url → Url
  pub set_password : String → Url → Url
  pub keys : Url → List String
  pub set_param : String → String → Url → Url
  pub to_string : Url → String

word_somewhere : String → Bool
word_somewhere [] = false
word_somewhere (c ∷ s) =
    is_some (strip_prefix "key" (c ∷ s))
    || is_some (strip_prefix "token" (c ∷ s))
    || is_some (strip_prefix "secret" (c ∷ s))
    || is_some (strip_prefix "password" (c ∷ s))
    || is_some (strip_prefix "authorization" (c ∷ s))
    || is_some (strip_prefix "credential" (c ∷ s))
    || word_somewhere s

-- The argument in front, if there is one, names no secret, so that what follows is no value of it.
unfoldable pub NoFlagBefore : List String → Type 0
NoFlagBefore pre = elim (last? pre) [ none ↦ Unit | some arg ↦ is_secret_flag arg ≡ false ]

-- The flag that stands behind `n` arguments is shown, and the argument behind it is hidden.
unfoldable pub Hides : ℕ → String → List String → Type 0
Hides n flag argv = (get_elem? argv n ≡ some flag) × (get_elem? argv (suc n) ≡ some "<redacted>")

module _ (urls : Urls) where
  redact_params : List String → urls.Url → urls.Url
  unfolding word_somewhere
  redact_params List.[] url = url
  redact_params (List.◌∷◌ key keys) url =
      redact_params keys (if word_somewhere key then urls.set_param key "<redacted>" url else url)

  redact_credentials : urls.Url → urls.Url
  redact_credentials url =
      if truthy (urls.username url) || truthy (urls.password url)
      then urls.set_password "" (urls.set_username "<redacted>" url)
      else url

  -- an argument that is a URL, or is left as it is
  redact_url : String → String
  unfolding redact_params redact_credentials
  redact_url arg = elim (urls.parse arg) [
    | none ↦ arg
    | some url ↦
        if urls.protocol url == "http:" || urls.protocol url == "https:"
        then (let cleared = redact_credentials url in
            urls.to_string (redact_params (urls.keys cleared) cleared))
        else arg
  ]

  redact_value : String → String
  unfolding redact_url is_secret_assignment redact_assignment holds_secret
  redact_value arg =
      if is_secret_assignment arg
      then redact_assignment arg
      else if holds_secret arg
      then "<redacted-config-arg>"
      else redact_url arg

  -- the `map`, with `redactNext`
  unfoldable pub redact_from : Bool → List String → List String
  unfolding redact_value is_secret_flag
  redact_from next List.[] = List.[]
  redact_from true (List.◌∷◌ arg argv) = List.◌∷◌ "<redacted>" (redact_from false argv)
  redact_from false (List.◌∷◌ arg argv) =
      let behind_flag = redact_from true argv in
      let behind = redact_from false argv in
      if is_secret_flag arg then List.◌∷◌ arg behind_flag else List.◌∷◌ (redact_value arg) behind

  unfoldable pub redact_argv : List String → List String
  unfolding redact_from
  redact_argv argv = redact_from false argv

  redact_from-flag :
      (flag secret : String) (post : List String)
      → is_secret_flag flag ≡ true
      → Hides 0 flag (redact_from false (List.◌∷◌ flag (List.◌∷◌ secret post)))
  unfolding redact_from Hides
  redact_from-flag flag secret post h = rw (h, redact_from) (refl, refl)

  redact_from-Hides :
      (pre : List String) (next : Bool) (arg flag secret : String) (post : List String)
      → is_secret_flag flag ≡ true
      → NoFlagBefore (List.◌∷◌ arg pre)
      → Hides
          (suc (length pre))
          flag
          (redact_from next (List.◌∷◌ arg pre ++ List.◌∷◌ flag (List.◌∷◌ secret post)))
  unfolding redact_from Hides NoFlagBefore
  redact_from-Hides List.[] true arg flag secret post h free = redact_from-flag flag secret post h
  redact_from-Hides List.[] false arg flag secret post h free =
      rw (free, redact_from) (redact_from-flag flag secret post h)
  redact_from-Hides (List.◌∷◌ b pre) true arg flag secret post h free =
      redact_from-Hides pre false b flag secret post h free
  redact_from-Hides (List.◌∷◌ b pre) false arg flag secret post h free =
      elim (Bool-cases (is_secret_flag arg)) [
        | inl e ↦ rw (e, redact_from) (redact_from-Hides pre true b flag secret post h free)
        | inr n ↦ rw (n, redact_from) (redact_from-Hides pre false b flag secret post h free)
      ]

  -- A flag that names a secret is shown and the next argument is hidden, wherever the two stand in
  -- the command line, if the argument in front of the flag is not such a flag itself.
  pub redact_argv-Hides :
      (pre : List String) (flag secret : String) (post : List String)
      → is_secret_flag flag ≡ true
      → NoFlagBefore pre
      → Hides (length pre) flag (redact_argv (pre ++ List.◌∷◌ flag (List.◌∷◌ secret post)))
  unfolding redact_argv
  redact_argv-Hides List.[] flag secret post h free = redact_from-flag flag secret post h
  redact_argv-Hides (List.◌∷◌ arg pre) flag secret post h free =
      redact_from-Hides pre false arg flag secret post h free
