-- ===== src/Runtime/Text.antt =====
-- The forms of versions, hashes and base 64 (cc-runtime-updater.ts).
use Prim.Native.Char.{Char, code}
use Prim.Native.String.{[], ◌∷◌}
use agent_workflow_platform.Prelude.{
  ℕ, suc, ◌+◌, ◌-◌, ◌*◌, ◌%◌, String, List, Bool, true, false, ◌&&◌, ◌||◌, not, ◌≡◌, refl,
  if◌then◌else◌, eqb, leb, ltb,
}

is_digit : ℕ → Bool
is_digit c = leb b'0' c && leb c b'9'

is_alphanumeric : ℕ → Bool
is_alphanumeric c = (leb b'A' c && leb c b'Z') || (leb b'a' c && leb c b'z') || is_digit c

count : String → ℕ
count [] = 0
count (c ∷ s) = suc (count s)

-- `[0-9A-Za-z](?:[0-9A-Za-z.-]{0,62}[0-9A-Za-z])?$`, of which `last` was read
suffix_from : Bool → String → Bool
unfolding is_alphanumeric is_digit
suffix_from last [] = last
suffix_from last (c ∷ s) =
    let more = suffix_from (is_alphanumeric (code c)) s in
    (is_alphanumeric (code c) || eqb (code c) b'.' || eqb (code c) b'-') && more

is_suffix : String → Bool
unfolding is_alphanumeric is_digit count suffix_from
is_suffix [] = false
is_suffix (c ∷ s) = is_alphanumeric (code c) && suffix_from true s && leb (count s) 63

-- `(?:0|[1-9]\d*)`, then a point for the first two numbers; `zero_read` says that the number is 0,
-- and `started` that a digit was read
numbers_from : ℕ → Bool → Bool → String → Bool
unfolding is_digit is_suffix
numbers_from left started zero_read [] = started && eqb left 0
numbers_from left started zero_read (c ∷ s) =
    let on = numbers_from left true (not started && eqb (code c) b'0') s in
    let next = numbers_from (left - 1) false false s in
    if is_digit (code c)
    then not zero_read && on
    else if eqb (code c) b'.'
    then started && ltb 0 left && next
    else eqb (code c) b'-' && started && eqb left 0 && is_suffix s

-- `VERSION_RE`, and the limit of 80
unfoldable pub is_version : String → Bool
unfolding count numbers_from
is_version s = leb (count s) 80 && numbers_from 2 false false s

is_hex : ℕ → Bool
is_hex c = is_digit c || (leb b'a' c && leb c b'f') || (leb b'A' c && leb c b'F')

all_hex : String → Bool
unfolding is_hex is_digit
all_hex [] = true
all_hex (c ∷ s) = is_hex (code c) && all_hex s

-- `HASH_RE`
unfoldable pub is_hash : String → Bool
unfolding count all_hex
is_hash s = eqb (count s) 64 && all_hex s

-- `[A-Za-z0-9+/]+={0,2}$`, with at least one unit in front of the padding
base64_from : Bool → String → Bool
unfolding is_alphanumeric is_digit
base64_from started [] = started
base64_from started (c ∷ s) =
    let more = base64_from true s in
    if is_alphanumeric (code c) || eqb (code c) b'+' || eqb (code c) b'/'
    then more
    else started && eqb (code c) b'=' && padding s
  where
    padding : String → Bool
    padding [] = true
    padding (d ∷ []) = eqb (code d) b'='
    padding (d ∷ e ∷ t) = false

unfoldable pub is_base64 : String → Bool
unfolding count base64_from
is_base64 s = eqb (count s % 4) 0 && base64_from false s

-- A number behind a version's first points, and the rest.
read_number : ℕ → String → ℕ × String
unfolding is_digit
read_number n [] = (n, "")
read_number n (c ∷ s) =
    let on = read_number (n * 10 + (code c - 48)) s in if is_digit (code c) then on else (n, s)

-- `semverCore`, of a version that has the form
unfoldable pub semver_core : String → ℕ × ℕ × ℕ
unfolding read_number
semver_core s =
    let (major, s1) = read_number 0 s in
    let (minor, s2) = read_number 0 s1 in
    let (patch, s3) = read_number 0 s2 in (major, minor, patch)

unfoldable pub version_less_than : String → String → Bool
unfolding semver_core
version_less_than a b =
    let (a1, a2, a3) = semver_core a in
    let (b1, b2, b3) = semver_core b in
    if eqb a1 b1 then (if eqb a2 b2 then ltb a3 b3 else ltb a2 b2) else ltb a1 b1

-- `toLowerCase`, of what `is_hash` accepts
lower_digit : Char → Char
lower_digit c =
    if eqb (code c) b'A'
    then "a"
    else if eqb (code c) b'B'
    then "b"
    else if eqb (code c) b'C'
    then "c"
    else if eqb (code c) b'D'
    then "d"
    else if eqb (code c) b'E'
    then "e"
    else if eqb (code c) b'F'
    then "f"
    else c

unfoldable pub lower_hash : String → String
unfolding lower_digit
lower_hash [] = ""
lower_hash (c ∷ s) = lower_digit c ∷ lower_hash s

starts_with : String → String → Bool
starts_with [] s = true
starts_with (c ∷ p) [] = false
starts_with (c ∷ p) (d ∷ s) = eqb (code c) (code d) && starts_with p s

-- `s.includes(p)`
unfoldable pub includes : String → String → Bool
unfolding starts_with
includes p [] = starts_with p []
includes p (c ∷ s) = starts_with p (c ∷ s) || includes p s

-- `s.split(',')`
unfoldable pub split_commas : String → List String
split_commas [] = List.◌∷◌ "" List.[]
split_commas (c ∷ s) =
    let rest = split_commas s in if eqb (code c) b',' then List.◌∷◌ "" rest else onto c rest
  where
    onto : Char → List String → List String
    onto d List.[] = List.[]
    onto d (List.◌∷◌ t ts) = List.◌∷◌ (d ∷ t) ts

is_hash_start : ℕ → String → Bool
unfolding is_digit
is_hash_start n [] = eqb n 0
is_hash_start n (c ∷ s) =
    (is_digit (code c) || (leb b'a' (code c) && leb (code c) b'f'))
    && is_hash_start (n - 1) s
    && ltb 0 n

ends_dir : String → Bool
unfolding is_hash_start
ends_dir (c ∷ d ∷ s) = eqb (code c) b'-' && eqb (code d) b'-' && is_hash_start 12 s
ends_dir _ = false

dir_from : ℕ → String → Bool
unfolding ends_dir is_alphanumeric
dir_from n [] = false
dir_from n (c ∷ s) =
    let more = dir_from (suc n) s in
    (ltb 0 n && leb n 80 && ends_dir (c ∷ s))
    || ((is_alphanumeric (code c) || eqb (code c) b'.' || eqb (code c) b'-') && more)

-- `ARTIFACT_DIR_RE`
unfoldable pub is_artifact_dir : String → Bool
unfolding dir_from
is_artifact_dir s = dir_from 0 s

version_test : is_version "1.20.3-rc.1" ≡ true
unfolding is_version
version_test = refl

leading_zero_test : is_version "1.02.3" ≡ false
unfolding is_version
leading_zero_test = refl

order_test : version_less_than "1.9.0" "1.10.0-rc" ≡ true
unfolding version_less_than
order_test = refl

split_test : split_commas "a,,b" ≡ List.◌∷◌ "a" (List.◌∷◌ "" (List.◌∷◌ "b" List.[]))
unfolding split_commas
split_test = refl

dir_test : is_artifact_dir "1.2.3-a--0123456789ab" ≡ true
unfolding is_artifact_dir
dir_test = refl
