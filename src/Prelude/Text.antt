-- ===== src/Prelude/Text.antt =====
-- Texts as JavaScript uses them: truthiness, white space, `trim`, lengths in UTF-16 units.
use Prim.Native.Nat.{ℕ, zero, suc, ◌+◌, ◌/◌, ◌%◌, ◌<◌}
use Prim.Native.Nat.{Ordering}
use Prim.Native.Char.{Char, code}
use Prim.Native.String
use Prim.Native.String.{String, [], ◌∷◌, compare}
use mathlib.Core.Path.{◌≡◌, refl, ap}
use mathlib.Core.Bool.{Bool, true, false, ◌&&◌, ◌||◌}
use mathlib.Core.Option.{Option, none, some}
use text.Mathlib.Text.{◌==◌}
use mathlib.Core.Logic.{inl, inr}
use native.Mathlib.Omega.{arith}
use agent_workflow_platform.Prelude.Tests.{Bool-cases, ltb, leb, eqb, if◌then◌else◌}

infixr 66 ◌⧺◌
abbrev pub ◌⧺◌ : String → String → String
s ⧺ t = String.◌++◌ s t

abbrev pub truthy : String → Bool
truthy [] = false
truthy (c ∷ s) = true

-- the truthiness of a `string | null | undefined`
abbrev pub present : Option String → Bool
present none = false
present (some s) = truthy s

-- `o === s` for a text `s`
abbrev pub option_is : Option String → String → Bool
option_is none s = false
option_is (some t) s = t == s

-- `a === b` where `null` and `undefined` are one value
abbrev pub option_eq : Option String → Option String → Bool
option_eq none none = true
option_eq none (some t) = false
option_eq (some s) o = option_is o s

-- `\s`, which is also what `trim` removes
unfoldable pub is_space : ℕ → Bool
is_space c =
    (leb 9 c && leb c 13)
    || eqb c 32
    || eqb c 160
    || eqb c 0x1680
    || (leb 0x2000 c && leb c 0x200A)
    || eqb c 0x2028
    || eqb c 0x2029
    || eqb c 0x202F
    || eqb c 0x205F
    || eqb c 0x3000
    || eqb c 0xFEFF

unfoldable pub trim_start : String → String
unfolding is_space
trim_start [] = ""
trim_start (c ∷ s) = let rest = trim_start s in if is_space (code c) then rest else c ∷ s

-- `c` before what is left of the text behind it
abbrev keep_char : Char → String → String
keep_char c [] = if is_space (code c) then "" else c ∷ ""
keep_char c (d ∷ s) = c ∷ d ∷ s

unfoldable pub trim_end : String → String
unfolding is_space
trim_end [] = ""
trim_end (c ∷ s) = keep_char c (trim_end s)

unfoldable pub trim : String → String
unfolding trim_start trim_end
trim s = trim_end (trim_start s)

-- `length`
unfoldable pub utf16_length : String → ℕ
utf16_length [] = 0
utf16_length (c ∷ s) = (if ltb (code c) 0x10000 then 1 else 2) + utf16_length s

-- `slice(0, n)`, but a pair of units that the cut would split is left out whole
unfoldable pub slice_units : ℕ → String → String
slice_units n [] = ""
slice_units zero (c ∷ s) = ""
slice_units (suc zero) (c ∷ s) = if ltb (code c) 0x10000 then c ∷ "" else ""
slice_units (suc (suc n)) (c ∷ s) = c ∷ slice_units (if ltb (code c) 0x10000 then suc n else n) s

-- `a > b`
unfoldable pub text_gt : String → String → Bool
text_gt a b = elim (compare a b) [ Ordering.gt ↦ true | _ ↦ false ]

digit : ℕ → String
digit n =
    if eqb n 0
    then "0"
    else if eqb n 1
    then "1"
    else if eqb n 2
    then "2"
    else if eqb n 3
    then "3"
    else if eqb n 4
    then "4"
    else if eqb n 5
    then "5"
    else if eqb n 6
    then "6"
    else if eqb n 7
    then "7"
    else if eqb n 8
    then "8"
    else "9"

decimal_from : ℕ → ℕ → String
decimal_from zero n = ""
decimal_from (suc fuel) n =
    let more = decimal_from fuel (n / 10) ⧺ digit (n % 10) in if ltb n 10 then digit n else more

-- Any fuel above the number gives the same text.
decimal_from_enough : (f g n : ℕ) → n < f → n < g → decimal_from f n ≡ decimal_from g n
unfolding decimal_from
decimal_from_enough zero g n h k = absurd (omega arith)
decimal_from_enough (suc f) zero n h k = absurd (omega arith)
decimal_from_enough (suc f) (suc g) n h k = elim (Bool-cases (ltb n 10)) [
  | inl small ↦ rw (small, decimal_from) refl
  | inr large ↦
      rw (large, decimal_from)
        (ap (λ s. s ⧺ digit (n % 10))
          (decimal_from_enough f g (n / 10) (ground (arith, large)) (ground (arith, large))))
]

-- `String(n)`
unfoldable pub decimal : ℕ → String
unfolding decimal_from digit
decimal n = decimal_from (suc n) n

trim_test : trim "  a b \n" ≡ "a b"
unfolding trim
trim_test = refl

decimal_test : decimal 1070 ≡ "1070"
unfolding decimal
decimal_test = refl
