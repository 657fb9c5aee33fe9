-- ===== src/Agent/Diagnostics/Scrubbed.antt =====
-- What is written of a value (`_structuredDiagnosticValue` of cc-wrapper.ts).
use agent_workflow_platform.Prelude.{
  ℕ, ◌+◌, String, Bool, true, false, Option, none, some, ◌==◌, ◌≡◌, ◌⊎◌, refl, if◌then◌else◌, any,
  ltb, List, [], ◌∷◌, Bool-cases, inl, inr,
}
use agent_workflow_platform.Agent.Diagnostics.{
  TypeName, undefined, function, symbol, bigint, type_name, Value, Properties, property, Summary,
  Summaries, entry, is_identifier, names_secret, safe_text, safe_diagnostic_scalar,
  safe_diagnostic_keys, structured, structured_properties, is_object, put,
}

-- What may be written of a type.
abbrev pub type_names : List String
type_names = "undefined" ∷ "function" ∷ "symbol" ∷ "bigint" ∷ []

abbrev pub sized_names : List String
sized_names = "string" ∷ "buffer" ∷ []

-- A text is a mark, or short, without blanks, and names no secret; a type is one of the names of
-- types; a key is one of the listed ones.
mutual
  pub IsScrubbed : Summary → Type 0
  IsScrubbed (Summary.plain s) =
      (s ≡ "[redacted]")
      ⊎ (s ≡ "[truncated]")
      ⊎ ((is_identifier s ≡ true) × (names_secret s ≡ false))
  IsScrubbed (Summary.object entries) = AreScrubbed entries
  IsScrubbed Summary.null = Unit
  IsScrubbed (Summary.boolean b) = Unit
  IsScrubbed (Summary.number n) = Unit
  IsScrubbed (Summary.bytes type n) = any (λ t. t == type) sized_names ≡ true
  IsScrubbed (Summary.count n) = Unit
  IsScrubbed (Summary.type_only type) = any (λ t. t == type) type_names ≡ true

  pub AreScrubbed : Summaries → Type 0
  AreScrubbed Summaries.end = Unit
  AreScrubbed (entry key v rest) =
      (any (λ k. k == key) safe_diagnostic_keys ≡ true) × IsScrubbed v × AreScrubbed rest

-- what is written of a property, where something is
IsWritten : Option Summary → Type 0
unfolding IsScrubbed
IsWritten none = Unit
IsWritten (some v) = IsScrubbed v

safe_text-IsScrubbed : (s : String) → IsScrubbed (safe_text s)
unfolding safe_text IsScrubbed
safe_text-IsScrubbed s = elim (Bool-cases (is_identifier s)) [
  | inr n ↦ rw (n, safe_text) refl
  | inl e ↦ elim (Bool-cases (names_secret s)) [
    | inl f ↦ rw (e, f, safe_text) (inl refl)
    | inr f ↦ rw (e, f, safe_text) (inr (inr (e, f)))
  ]
]

scalar-IsWritten : (v : Value) → IsWritten (safe_diagnostic_scalar v)
unfolding safe_diagnostic_scalar IsWritten IsScrubbed
scalar-IsWritten Value.null = tt
scalar-IsWritten (Value.boolean b) = tt
scalar-IsWritten (Value.number n) = tt
scalar-IsWritten (Value.text s) = safe_text-IsScrubbed s
scalar-IsWritten (Value.buffer n) = tt
scalar-IsWritten (Value.array n) = tt
scalar-IsWritten (Value.object ps) = tt
scalar-IsWritten (Value.other type) = tt

type_name_listed : (type : TypeName) → any (λ t. t == type_name type) type_names ≡ true
unfolding type_name
type_name_listed undefined = refl
type_name_listed function = refl
type_name_listed symbol = refl
type_name_listed bigint = refl

truncated-IsScrubbed :
    (b : Bool) (v : Summary)
    → IsScrubbed v
    → IsScrubbed (if b then Summary.plain "[truncated]" else v)
unfolding IsScrubbed
truncated-IsScrubbed true v h = inr (inl refl)
truncated-IsScrubbed false v h = h

put-AreScrubbed :
    (b : Bool) (key : String) (o : Option Summary) (rest : Summaries)
    → any (λ k. k == key) safe_diagnostic_keys ≡ b
    → IsWritten o
    → AreScrubbed rest
    → AreScrubbed (if b then put key o rest else rest)
unfolding IsScrubbed IsWritten
put-AreScrubbed true key none rest e h k = k
put-AreScrubbed true key (some v) rest e h k = (e, h, k)
put-AreScrubbed false key o rest e h k = k

nested-IsWritten :
    (b : Bool) (v : Summary) (o : Option Summary)
    → IsScrubbed v
    → IsWritten o
    → IsWritten (if b then some v else o)
unfolding IsWritten IsScrubbed
nested-IsWritten true v o h k = h
nested-IsWritten false v o h k = k

mutual
  unfolding structured structured_properties IsScrubbed

  at_depth : (depth : ℕ) (v : Value) → IsScrubbed (structured depth v)
  at_depth depth (Value.text s) = truncated-IsScrubbed (ltb 2 depth) _ refl
  at_depth depth (Value.buffer n) = truncated-IsScrubbed (ltb 2 depth) _ refl
  at_depth depth Value.null = truncated-IsScrubbed (ltb 2 depth) _ tt
  at_depth depth (Value.number n) = truncated-IsScrubbed (ltb 2 depth) _ tt
  at_depth depth (Value.boolean b) = truncated-IsScrubbed (ltb 2 depth) _ tt
  at_depth depth (Value.array n) = truncated-IsScrubbed (ltb 2 depth) _ tt
  at_depth depth (Value.other type) = truncated-IsScrubbed (ltb 2 depth) _ (type_name_listed type)
  at_depth depth (Value.object ps) =
      truncated-IsScrubbed (ltb 2 depth) (Summary.object (structured_properties depth ps))
        (properties_at_depth depth ps)

  properties_at_depth : (depth : ℕ) (ps : Properties) → AreScrubbed (structured_properties depth ps)
  properties_at_depth depth Properties.end = tt
  properties_at_depth depth (property key v ps) =
      put-AreScrubbed (any (λ k. k == key) safe_diagnostic_keys) key _
        (structured_properties depth ps) refl
        (nested-IsWritten (is_object v) (structured (depth + 1) v) (safe_diagnostic_scalar v)
          (at_depth (depth + 1) v) (scalar-IsWritten v))
        (properties_at_depth depth ps)

-- Whatever value is given to the diagnostics: each text that is written of it is a mark, the name of a
-- type, or has at most 80 plain letters and names no secret, and each key is one of the listed ones.
pub structured-IsScrubbed : (v : Value) → IsScrubbed (structured 0 v)
structured-IsScrubbed v = at_depth 0 v
