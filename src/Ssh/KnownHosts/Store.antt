-- ===== src/Ssh/KnownHosts/Store.antt =====
-- The stored form of the known hosts, and its validation (ssh-known-hosts.ts).
use Prim.Native.Char.{code}
use agent_workflow_platform.Prelude.{
  ℕ, zero, suc, String, Bool, false, ◌&&◌, ◌||◌, not, List, ◌==◌, if◌then◌else◌, Option, none, some,
  leb, eqb, ltb,
}
use mathlib.Core.List.{[], ◌∷◌}

-- A parsed JSON value; the keys of an object are distinct.
mutual
  pub data Json : Type 0 where
    null : Json
    bool : Bool → Json
    num : ℕ → Json
    str : String → Json
    arr : Json
    obj : Fields → Json

  pub data Fields : Type 0 where
    end : Fields
    field : String → Json → Fields → Fields

abbrev pub KnownHosts : Type 0
KnownHosts = List (String × String)

pub data Failure : Type 0 where
  storage_error invalid_json invalid_schema entry_limit invalid_host_reference : Failure
  invalid_fingerprint : Failure

pub data Outcome {ℓ} (A : Type ℓ) : Type ℓ where
  ok : A → Outcome A
  err : Failure → Outcome A

abbrev pub max_entries : ℕ
max_entries = 512

is_hex_digit : ℕ → Bool
is_hex_digit c = (leb b'0' c && leb c b'9') || (leb b'a' c && leb c b'f')

hex_from : ℕ → String → Bool
hex_from n String.[] = eqb n 0
hex_from zero (String.◌∷◌ c s) = false
hex_from (suc n) (String.◌∷◌ c s) = is_hex_digit (code c) && hex_from n s

-- `/^[0-9a-f]{64}$/`
unfoldable pub is_hex_64 : String → Bool
unfolding hex_from is_hex_digit
is_hex_64 s = hex_from 64 s

-- `isKnownHostId`
unfoldable pub is_known_host_id : String → Bool
is_known_host_id s = is_hex_64 s

-- `RESERVED_NAMES`
unfoldable pub reserved : String → Bool
reserved s = s == "__proto__" || s == "prototype" || s == "constructor"

unfoldable pub lookup : String → KnownHosts → Option String
lookup k [] = none
lookup k ((j, v) ∷ rest) = if j == k then some v else lookup k rest

-- a new key goes to the end of an object
unfoldable pub insert : String → String → KnownHosts → KnownHosts
insert k v [] = (k, v) ∷ []
insert k v ((j, w) ∷ rest) = if j == k then (j, v) ∷ rest else (j, w) ∷ insert k v rest

unfoldable pub delete : String → KnownHosts → KnownHosts
delete k [] = []
delete k ((j, w) ∷ rest) = if j == k then rest else (j, w) ∷ delete k rest

abbrev pub entry_count : Fields → ℕ
entry_count end = 0
entry_count (field k v fs) = suc (entry_count fs)

unfoldable pub field_value : String → Fields → Option Json
field_value k end = none
field_value k (field j v fs) = if j == k then some v else field_value k fs

-- the loop over the entries
unfoldable pub json_entries : Fields → Outcome KnownHosts
unfolding is_known_host_id reserved
json_entries end = ok []
json_entries (field host v fs) =
    let rest = json_entries fs in
    if reserved host || not (is_known_host_id host) then err invalid_host_reference else elim v [
      | str fingerprint ↦
          if is_hex_64 fingerprint
          then elim rest [ ok entries ↦ ok ((host, fingerprint) ∷ entries) | err e ↦ err e ]
          else err invalid_fingerprint
      | _ ↦ err invalid_fingerprint
    ]

unfoldable pub is_text : Option Json → String → Bool
is_text (some (str s)) t = s == t
is_text _ t = false

unfoldable pub is_number : Option Json → ℕ → Bool
is_number (some (num n)) m = eqb n m
is_number _ m = false

unfoldable pub is_object : Option Json → Option Fields
is_object (some (obj fs)) = some fs
is_object _ = none

unfoldable pub has_field : String → Fields → Bool
has_field k end = false
has_field k (field j v fs) = j == k || has_field k fs

-- `hasExactKeys`, for three keys and an object with distinct keys
unfoldable pub has_exact_keys : Fields → Bool
has_exact_keys fs =
    eqb (entry_count fs) 3
    && has_field "entries" fs
    && has_field "schema" fs
    && has_field "version" fs

unfoldable pub check_fields : Fields → Outcome KnownHosts
unfolding has_exact_keys has_field field_value is_text is_number is_object
check_fields fs =
    if has_exact_keys fs
      && is_text (field_value "schema" fs) "awp-known-hosts"
      && is_number (field_value "version" fs) 1
    then elim (is_object (field_value "entries" fs)) [
      | none ↦ err invalid_schema
      | some source ↦
          if ltb max_entries (entry_count source) then err entry_limit else json_entries source
    ]
    else err invalid_schema

-- `validateStore`
unfoldable pub validate_store : Json → Outcome KnownHosts
unfolding check_fields
validate_store (obj fs) = check_fields fs
validate_store _ = err invalid_schema

unfoldable pub render_entries : KnownHosts → Fields
render_entries [] = end
render_entries ((host, fingerprint) ∷ rest) = field host (str fingerprint) (render_entries rest)

-- The value that `persistKnownHosts` writes.
unfoldable pub to_json : KnownHosts → Json
unfolding render_entries
to_json entries = obj (
    field "schema" (str "awp-known-hosts")
      (field "version" (num 1) (field "entries" (obj (render_entries entries)) end)))
