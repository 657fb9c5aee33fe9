-- ===== src/Agent/Json.antt =====
-- Parsed JSON values, as the code of cc-wrapper.ts reads them.
use agent_workflow_platform.Prelude.{
  ℕ, ◌*◌, ◌^◌, String, Bool, true, false, ◌&&◌, ◌||◌, not, Option, none, some, ◌==◌, eqb,
  if◌then◌else◌,
}

-- A decimal literal: its digits as a number, of which the last `places` stand behind the point.
pub record Number : Type 0 where
  pub negative : Bool
  pub digits : ℕ
  pub places : ℕ

-- The keys of an object are distinct.
mutual
  pub data Json : Type 0 where
    null : Json
    bool : Bool → Json
    number : Number → Json
    str : String → Json
    arr : Elements → Json
    obj : Fields → Json

  pub data Elements : Type 0 where
    no_more : Elements
    element : Json → Elements → Elements

  pub data Fields : Type 0 where
    end : Fields
    field : String → Json → Fields → Fields

-- `n >= 0`
unfoldable pub is_nonnegative : Number → Bool
is_nonnegative n = not n.negative || eqb n.digits 0

-- `a === b`
unfoldable pub same_number : Number → Number → Bool
same_number a b =
    eqb (a.digits * 10 ^ b.places) (b.digits * 10 ^ a.places)
    && (eqb a.digits 0 || (if a.negative then b.negative else not b.negative))

unfoldable pub find_field : String → Fields → Option Json
find_field k end = none
find_field k (field j v rest) = if j == k then some v else find_field k rest

-- `v[key]`, which is `undefined` for what is no object
unfoldable pub get : String → Json → Option Json
unfolding find_field
get k (obj fields) = find_field k fields
get k _ = none

-- `(v ?? {})[key]`
unfoldable pub get_in : String → Option Json → Option Json
unfolding get
get_in k none = none
get_in k (some v) = get k v

-- `typeof v === 'string'`, with the text
unfoldable pub as_text : Option Json → Option String
as_text (some (str s)) = some s
as_text _ = none

-- `typeof v === 'number'`, with the number
unfoldable pub as_number : Option Json → Option Number
as_number (some (number n)) = some n
as_number _ = none

unfoldable pub is_true : Option Json → Bool
is_true (some (bool b)) = b
is_true _ = false

-- `v && typeof v === 'object'`
unfoldable pub is_object : Json → Bool
is_object (arr elements) = true
is_object (obj fields) = true
is_object _ = false

truthy_text : String → Bool
truthy_text s = not (s == "")

-- whether `if (v)` takes its branch
unfoldable pub is_truthy : Json → Bool
unfolding truthy_text
is_truthy null = false
is_truthy (bool b) = b
is_truthy (number n) = not (eqb n.digits 0)
is_truthy (str s) = truthy_text s
is_truthy _ = true

unfoldable pub elements_of : Option Json → Elements
elements_of (some (arr elements)) = elements
elements_of _ = no_more
