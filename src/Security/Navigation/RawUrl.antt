-- ===== src/Security/Navigation/RawUrl.antt =====
-- The checks of a URL's text (navigation-policy.ts), and what the platform tells of a URL.
use Prim.Native.Char.{code}
use Prim.Native.String.{[], ◌∷◌}
use agent_workflow_platform.Prelude.{
  ℕ, ◌+◌, zero, suc, String, Bool, true, false, ◌&&◌, ◌||◌, not, Option, none, some, ◌==◌,
  if◌then◌else◌, leb, eqb, truthy,
}

-- The parts of a parsed URL.
pub record Url : Type 0 where
  pub protocol : String
  pub hostname : String
  pub port : String
  pub username : String
  pub password : String
  pub pathname : String
  pub search : String
  pub hash : String
  pub origin : String
  pub href : String

-- `new URL`, `href` of a URL without its fragment, and `decodeURIComponent`.
pub record Platform : Type 0 where
  pub parse : String → Option Url
  pub without_hash : Url → String
  pub decode : String → Option String

-- `startsWith('/')`
unfoldable pub starts_with_slash : String → Bool
starts_with_slash [] = false
starts_with_slash (c ∷ s) = eqb (code c) b'/'

-- `slice(1)` of a text that starts with a character of one unit
unfoldable pub behind_first : String → String
behind_first [] = ""
behind_first (c ∷ s) = s

unfoldable pub chars_any : (ℕ → Bool) → String → Bool
chars_any test [] = false
chars_any test (c ∷ s) = test (code c) || chars_any test s

unfoldable pub contains : ℕ → String → Bool
unfolding chars_any
contains c s = chars_any (eqb c) s

is_control : ℕ → Bool
is_control c = leb c 0x1F || eqb c 0x7F

-- `CONTROL_CHAR`
unfoldable pub has_control_char : String → Bool
unfolding is_control chars_any
has_control_char s = chars_any is_control s

is_hex : ℕ → Bool
is_hex c = (leb b'0' c && leb c b'9') || (leb b'a' c && leb c b'f') || (leb b'A' c && leb c b'F')

two_hex : String → Bool
two_hex (c ∷ d ∷ s) = is_hex (code c) && is_hex (code d)
two_hex s = false

-- `INVALID_PERCENT_ESCAPE`
unfoldable pub has_invalid_escape : String → Bool
unfolding is_hex two_hex
has_invalid_escape [] = false
has_invalid_escape (c ∷ s) = (eqb (code c) b'%' && not (two_hex s)) || has_invalid_escape s

-- `INVALID_ARTIFACT_CHAR`
unfoldable pub is_invalid_artifact_char : ℕ → Bool
unfolding is_control
is_invalid_artifact_char c =
    eqb c b'<'
    || eqb c b'>'
    || eqb c b':'
    || eqb c b'"'
    || eqb c b'/'
    || eqb c b'\\'
    || eqb c b'|'
    || eqb c b'?'
    || eqb c b'*'
    || is_control c

-- the text behind the first "://"
after_scheme : String → Option String
after_scheme [] = none
after_scheme (c ∷ s) =
    let later = after_scheme s in
    elim s [
      | [] ↦ none
      | d ∷ r ↦ elim r [
        | [] ↦ none
        | e ∷ rest ↦
            if eqb (code c) b':' && eqb (code d) b'/' && eqb (code e) b'/' then some rest else later
      ]
    ]

until : (ℕ → Bool) → String → String
until stop [] = ""
until stop (c ∷ s) = let rest = until stop s in if stop (code c) then "" else c ∷ rest

ends_authority : ℕ → Bool
ends_authority c = eqb c b'/' || eqb c b'?' || eqb c b'#'

-- `getRawAuthority`
unfoldable pub raw_authority : String → Option String
unfolding after_scheme until ends_authority
raw_authority raw = elim (after_scheme raw) [ none ↦ none | some s ↦ some (until ends_authority s) ]

-- `hasRawUserInfo`
unfoldable pub has_raw_user_info : String → Bool
has_raw_user_info raw = elim (raw_authority raw) [ none ↦ false | some a ↦ contains b'@' a ]

-- the text behind the first slash, if there is one
behind_slash : String → Option String
behind_slash [] = none
behind_slash (c ∷ s) = if eqb (code c) b'/' then some s else behind_slash s

ends_path : ℕ → Bool
ends_path c = eqb c b'?' || eqb c b'#'

-- The path behind the authority, as it is written; one slash stands for a path that is missing,
-- which is not one segment either.
unfoldable pub raw_path : String → String
unfolding after_scheme behind_slash until ends_path
raw_path raw = elim (after_scheme raw) [
  | none ↦ "/"
  | some s ↦ elim (behind_slash s) [ none ↦ "/" | some rest ↦ until ends_path rest ]
]

is_digit : ℕ → Bool
is_digit c = leb b'0' c && leb c b'9'

digits_up_to : ℕ → String → Bool
digits_up_to n [] = true
digits_up_to zero (c ∷ s) = false
digits_up_to (suc n) (c ∷ s) = is_digit (code c) && digits_up_to n s

-- `(?::\d{1,5})?$`
is_port_suffix : String → Bool
unfolding is_digit digits_up_to
is_port_suffix [] = true
is_port_suffix (c ∷ s) = eqb (code c) b':' && truthy s && digits_up_to 5 s

lower : ℕ → ℕ
lower c = if leb b'A' c && leb c b'Z' then c + 32 else c

-- the rest behind a prefix in small letters, without regard to case
strip_prefix : String → String → Option String
strip_prefix [] s = some s
strip_prefix (c ∷ t) [] = none
strip_prefix (c ∷ t) (d ∷ s) = if eqb (code c) (lower (code d)) then strip_prefix t s else none

with_port : Option String → Bool
with_port none = false
with_port (some rest) = is_port_suffix rest

unfoldable pub is_local_host : String → Bool
unfolding strip_prefix lower with_port is_port_suffix
is_local_host a = with_port (strip_prefix "localhost" a)

unfoldable pub is_local_ipv4 : String → Bool
unfolding strip_prefix lower with_port is_port_suffix
is_local_ipv4 a = with_port (strip_prefix "127.0.0.1" a)

is_ipv6_char : ℕ → Bool
is_ipv6_char c = is_hex c || eqb c b':'

-- one or more of `[0-9a-f:]`, then `]` and a port
ipv6_tail : Bool → String → Bool
ipv6_tail some_before [] = false
ipv6_tail some_before (c ∷ s) =
    if eqb (code c) b']'
    then some_before && is_port_suffix s
    else is_ipv6_char (code c) && ipv6_tail true s

unfoldable pub is_bracketed_ipv6 : String → Bool
unfolding ipv6_tail is_ipv6_char is_hex is_port_suffix
is_bracketed_ipv6 [] = false
is_bracketed_ipv6 (c ∷ s) = eqb (code c) b'[' && ipv6_tail false s

-- The three forms of an authority that names the machine itself, each with the host name that the
-- parser gives.
unfoldable pub is_loopback_authority : String → String → Bool
unfolding is_local_host is_local_ipv4 is_bracketed_ipv6
is_loopback_authority a hostname =
    if is_local_host a
    then hostname == "localhost"
    else if is_local_ipv4 a
    then hostname == "127.0.0.1"
    else if is_bracketed_ipv6 a
    then hostname == "[::1]"
    else false
