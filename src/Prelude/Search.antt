-- ===== src/Prelude/Search.antt =====
-- What a search of a list by a Boolean test has found.

use Prim.Native.Nat.{ℕ, zero, suc}
use mathlib.Core.Path.{◌≡◌, refl, ap}
use mathlib.Core.Logic.{◌≢◌}
use mathlib.Core.Bool.{Bool, true, false}
use mathlib.Core.List.{List, [], ◌∷◌, map}
use mathlib.Core.Option.{none, some}
use native.Mathlib.Omega.{arith}
use agent_workflow_platform.Prelude.Lists.{get_elem?, set, find_index?, any}

module _ {ℓ} {A : Type ℓ} (p : A → Bool) where
  pub find_index?-sound :
      (xs : List A) (i : ℕ)
      → find_index? p xs ≡ some i
      → (x : A) × (get_elem? xs i ≡ some x) × (p x ≡ true)
  find_index?-sound [] i e = cc
  find_index?-sound (x ∷ xs) zero e = (x, refl, ground arith)
  find_index?-sound (x ∷ xs) (suc i) e = find_index?-sound xs i (ground arith)

  -- What the test refuses is not at the position that was found.
  pub find_index?-ne :
      (xs : List A) (i j : ℕ) (x : A)
      → find_index? p xs ≡ some i
      → get_elem? xs j ≡ some x
      → p x ≡ false
      → i ≢ j
  find_index?-ne xs i j x found here refused same =
      let (y, there, passed) = find_index?-sound xs i found in
      let again : get_elem? xs i ≡ some x = rw same here in cc

  -- A change that keeps the test's answer keeps the position.
  pub find_index?-set :
      (xs : List A) (i : ℕ) (x y : A)
      → get_elem? xs i ≡ some x
      → p y ≡ p x
      → find_index? p (set xs i y) ≡ find_index? p xs
  find_index?-set [] i x y e h = refl
  find_index?-set (z ∷ xs) zero x y e h = ground arith
  find_index?-set (z ∷ xs) (suc i) x y e h = ground (arith, find_index?-set xs i x y e h)

  pub any-find_index? : (xs : List A) → any p xs ≡ false → find_index? p xs ≡ none
  any-find_index? [] h = refl
  any-find_index? (x ∷ xs) h = ground (arith, any-find_index? xs)

-- A change that keeps a field keeps the list of that field.
pub map-set {ℓ κ} :
    {A : Type ℓ} {B : Type κ} (f : A → B) (xs : List A) (i : ℕ) (x y : A)
    → get_elem? xs i ≡ some x
    → f y ≡ f x
    → map f (set xs i y) ≡ map f xs
map-set f [] i x y e h = refl
map-set f (z ∷ xs) zero x y e h = ground arith
map-set f (z ∷ xs) (suc i) x y e h = ap (◌∷◌ (f z)) (map-set f xs i x y e h)

module _ {ℓ} {A : Type ℓ} (p : A → Bool) where
  -- Where nothing passed the test, what is written to pass it is found.
  pub find_index?-set_new :
      (xs : List A) (i : ℕ) (x y : A)
      → any p xs ≡ false
      → get_elem? xs i ≡ some x
      → p y ≡ true
      → find_index? p (set xs i y) ≡ some i
  find_index?-set_new [] i x y h e k = cc
  find_index?-set_new (z ∷ xs) zero x y h e k = rw k
  find_index?-set_new (z ∷ xs) (suc i) x y h e k =
      ground (arith, find_index?-set_new xs i x y (ground arith) e k)

  pub any-get_elem? :
      (xs : List A) (i : ℕ) (x : A) → any p xs ≡ false → get_elem? xs i ≡ some x → p x ≡ false
  any-get_elem? [] i x h e = cc
  any-get_elem? (z ∷ xs) zero x h e = ground arith
  any-get_elem? (z ∷ xs) (suc i) x h e = any-get_elem? xs i x (ground arith) e

-- A test that implies another passes nowhere where the other does not.
pub any-imp {ℓ} :
    {A : Type ℓ} (p q : A → Bool) (xs : List A)
    → ((x : A) → q x ≡ false → p x ≡ false)
    → any q xs ≡ false
    → any p xs ≡ false
any-imp p q [] h e = refl
any-imp p q (x ∷ xs) h e = rw (h x (ground arith)) (any-imp p q xs h (ground arith))
