-- ===== src/Ssh/KnownHosts/Schema.antt =====
-- The validation of the stored hosts, and what is written (`validateStore`, `persistKnownHosts` of
-- ssh-known-hosts.ts).
use agent_workflow_platform.Prelude.{
  ◌≤◌, suc, String, true, false, [], ◌∷◌, ◌≡◌, refl, ap, arith, All, length, eq_iff, Bool-cases,
  inl, inr, ◌==◌, ◌⊎◌, Option-cases,
}
use agent_workflow_platform.Ssh.KnownHosts.Store.{
  Json, str, obj, Fields, end, field, KnownHosts, Outcome, Failure, ok, err, max_entries, is_hex_64,
  is_known_host_id, reserved, entry_count, json_entries, is_object, field_value, check_fields,
  validate_store, render_entries, to_json,
}

-- A host id and a fingerprint of the right form.
abbrev pub IsEntry : String × String → Type 0
IsEntry (host, fingerprint) = (is_hex_64 host ≡ true) × (is_hex_64 fingerprint ≡ true)

pub record IsStore (entries : KnownHosts) : Type 0 where
  pub well_formed : All IsEntry entries
  pub bounded : length entries ≤ max_entries

Outcome-cases :
    {A : Type 0} (o : Outcome A) → ((a : A) × (o ≡ ok a)) ⊎ ((x : Failure) × (o ≡ err x))
Outcome-cases (ok a) = inl (a, refl)
Outcome-cases (err x) = inr (x, refl)

eq-false : (s t : String) → is_hex_64 s ≡ true → is_hex_64 t ≡ false → (s == t) ≡ false
eq-false s t h k = elim (Bool-cases (s == t)) [
  | inl same ↦ let e = (eq_iff s t).0 same in cc
  | inr other ↦ other
]

not-reserved : (s : String) → is_hex_64 s ≡ true → reserved s ≡ false
unfolding reserved
not-reserved s h = rw (
  eq-false s "__proto__" h (unfold is_hex_64 in refl),
  eq-false s "prototype" h (unfold is_hex_64 in refl),
  eq-false s "constructor" h (unfold is_hex_64 in refl),
)

json_entries-render :
    (entries : KnownHosts)
    → All IsEntry entries
    → json_entries (render_entries entries) ≡ ok entries
unfolding json_entries render_entries
json_entries-render [] h = refl
json_entries-render ((host, fingerprint) ∷ rest) h =
    rw (not-reserved host h.0.0, h.0.0, h.0.1, json_entries-render rest h.1)

entry_count-render : (entries : KnownHosts) → entry_count (render_entries entries) ≡ length entries
unfolding render_entries
entry_count-render [] = refl
entry_count-render (e ∷ rest) = ap suc (entry_count-render rest)

-- What is written is accepted when it is read, with the same entries.
pub validate_store-to_json :
    (entries : KnownHosts) → IsStore entries → validate_store (to_json entries) ≡ ok entries
unfolding validate_store to_json
validate_store-to_json entries v =
    ground (arith, v.bounded, entry_count-render entries, json_entries-render entries v.well_formed)

record IsCons (host : String) (fs : Fields) (entries : KnownHosts) : Type 0 where
  fingerprint : String
  rest : KnownHosts
  valid : is_hex_64 host ≡ true
  hex : is_hex_64 fingerprint ≡ true
  tail : json_entries fs ≡ ok rest
  whole : entries ≡ (host, fingerprint) ∷ rest

json_entries-IsCons :
    (host : String) (v : Json) (fs : Fields) (entries : KnownHosts)
    → json_entries (field host v fs) ≡ ok entries
    → IsCons host fs entries
unfolding json_entries is_known_host_id
json_entries-IsCons host (str s) fs entries e = elim (Outcome-cases (json_entries fs)) [
  | inl (rest, f) ↦ record {
    fingerprint = s;
    rest = rest;
    valid = ground arith;
    hex = ground arith;
    tail = f;
    whole = ground arith;
  }
  | inr (x, f) ↦ absurd (ground arith)
]
json_entries-IsCons host v fs entries e = absurd (ground arith)

json_entries-All :
    (fs : Fields) (entries : KnownHosts)
    → json_entries fs ≡ ok entries
    → All IsEntry entries × (length entries ≡ entry_count fs)
unfolding json_entries
json_entries-All end entries e = let p : [] ≡ entries = cc in rw (← p) (tt, refl)
json_entries-All (field host v fs) entries e =
    let c = json_entries-IsCons host v fs entries e in
    let (valid, same) = json_entries-All fs c.rest c.tail in
    rw c.whole (((c.valid, c.hex), valid), ap suc same)

check_fields-IsStore :
    (fs : Fields) (entries : KnownHosts) → check_fields fs ≡ ok entries → IsStore entries
unfolding check_fields
check_fields-IsStore fs entries e = elim (Option-cases (is_object (field_value "entries" fs))) [
  | inl f ↦ absurd (ground arith)
  | inr (source, f) ↦
      let read : json_entries source ≡ ok entries = ground arith in
      let few : entry_count source ≤ max_entries = ground arith in
      let (valid, same) = json_entries-All source entries read in
      record { well_formed = valid; bounded = omega arith }
]

-- A stored file that is accepted has at most 512 entries, each with a host id and a fingerprint of
-- 64 hexadecimal digits.
pub validate_store-IsStore :
    (json : Json) (entries : KnownHosts) → validate_store json ≡ ok entries → IsStore entries
unfolding validate_store
validate_store-IsStore (obj fs) entries e = check_fields-IsStore fs entries e
validate_store-IsStore json entries e = absurd (ground arith)
