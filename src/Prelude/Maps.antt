-- ===== src/Prelude/Maps.antt =====
-- A `Map` with texts as keys, as the list of its entries in the order of insertion.
use mathlib.Core.Path.{◌≡◌, refl, ap}
use mathlib.Core.Logic.{◌⊎◌, inl, inr}
use mathlib.Core.Bool.{true, false}
use mathlib.Core.Option.{Option, none, some}
use mathlib.Core.List.{List, [], ◌∷◌}
use Prim.Native.String.{String}
use text.Mathlib.Text.{◌==◌}
use text.Mathlib.TextEquality.{eq_iff}
use text.Mathlib.TextPositions.{eq_refl}
use agent_workflow_platform.Prelude.Tests.{Bool-cases, if◌then◌else◌}

-- Two texts are equal or not, with what the test says of them.
pub String-cases : (s t : String) → (s ≡ t) ⊎ ((s == t) ≡ false)
String-cases s t = elim (Bool-cases (s == t)) [ inl e ↦ inl ((eq_iff s t).0 e) | inr n ↦ inr n ]

pub eq-false_sym : (s t : String) → (s == t) ≡ false → (t == s) ≡ false
eq-false_sym s t n = elim (String-cases t s) [
  | inl e ↦ (let h : (s == s) ≡ false = rw e at n in absurd (true≢false s h))
  | inr m ↦ m
]
  where
    true≢false : (u : String) → (u == u) ≡ false → ⊥
    true≢false u h = let r = eq_refl u in cc

module _ {ℓ} {A : Type ℓ} where
  -- `get`
  unfoldable pub map_get : String → List (String × A) → Option A
  map_get k [] = none
  map_get k ((j, v) ∷ rest) = if j == k then some v else map_get k rest

  -- `set`: a key that is there keeps its place
  unfoldable pub map_set : String → A → List (String × A) → List (String × A)
  map_set k v [] = (k, v) ∷ []
  map_set k v ((j, w) ∷ rest) = if j == k then (j, v) ∷ rest else (j, w) ∷ map_set k v rest

  -- `delete`
  unfoldable pub map_delete : String → List (String × A) → List (String × A)
  map_delete k [] = []
  map_delete k ((j, w) ∷ rest) =
      let less = map_delete k rest in if j == k then less else (j, w) ∷ less

  pub map_get-set_self :
      (k : String) (v : A) (m : List (String × A)) → map_get k (map_set k v m) ≡ some v
  unfolding map_get map_set
  map_get-set_self k v [] = rw (eq_refl k) refl
  map_get-set_self k v ((j, w) ∷ rest) = elim (Bool-cases (j == k)) [
    | inl e ↦ rw (e, map_get, e) refl
    | inr n ↦ rw (n, map_get, n) (map_get-set_self k v rest)
  ]

  pub map_get-set_ne :
      (k l : String) (v : A) (m : List (String × A))
      → (k == l) ≡ false
      → map_get l (map_set k v m) ≡ map_get l m
  unfolding map_get map_set
  map_get-set_ne k l v [] n = rw n refl
  map_get-set_ne k l v ((j, w) ∷ rest) n = elim (String-cases j k) [
    | inl e ↦
        let h : (j == k) ≡ true = (eq_iff j k).1 e in
        let g : (j == l) ≡ false = rw e n in rw (h, map_get, g) refl
    | inr m ↦ elim (Bool-cases (j == l)) [
      | inl g ↦ rw (m, map_get, g) refl
      | inr g ↦ rw (m, map_get, g) (map_get-set_ne k l v rest n)
    ]
  ]

  pub map_get-delete_self : (k : String) (m : List (String × A)) → map_get k (map_delete k m) ≡ none
  unfolding map_get map_delete
  map_get-delete_self k [] = refl
  map_get-delete_self k ((j, w) ∷ rest) = elim (Bool-cases (j == k)) [
    | inl e ↦ rw e (map_get-delete_self k rest)
    | inr n ↦ rw (n, map_get, n) (map_get-delete_self k rest)
  ]

  pub map_get-delete_ne :
      (k l : String) (m : List (String × A))
      → (k == l) ≡ false
      → map_get l (map_delete k m) ≡ map_get l m
  unfolding map_get map_delete
  map_get-delete_ne k l [] n = refl
  map_get-delete_ne k l ((j, w) ∷ rest) n = elim (String-cases j k) [
    | inl e ↦
        let h : (j == k) ≡ true = (eq_iff j k).1 e in
        let g : (j == l) ≡ false = rw e n in rw (h, g) (map_get-delete_ne k l rest n)
    | inr m ↦ elim (Bool-cases (j == l)) [
      | inl g ↦ rw (m, map_get, g) refl
      | inr g ↦ rw (m, map_get, g) (map_get-delete_ne k l rest n)
    ]
  ]

  pub map_set-set :
      (k : String) (v w : A) (m : List (String × A)) → map_set k w (map_set k v m) ≡ map_set k w m
  unfolding map_set
  map_set-set k v w [] = rw (eq_refl k) refl
  map_set-set k v w ((j, u) ∷ rest) = elim (Bool-cases (j == k)) [
    | inl e ↦ rw (e, map_set, e) refl
    | inr n ↦ rw (n, map_set, n) (ap (◌∷◌ (j, u)) (map_set-set k v w rest))
  ]
