-- ===== src/Prelude/Lists.antt =====
-- Slices as lists: membership and quantifiers that compute.
use Prim.Native.Nat.{ℕ, suc}
use mathlib.Core.Path.{◌≡◌, refl}
use mathlib.Core.Bool.{Bool, false, ◌||◌}
use mathlib.Core.List.{List, [], ◌∷◌, ◌++◌}
use native.Mathlib.Omega.{arith}
use arlon.Prelude.Equality.{Eq, ◌==◌}

module _ {ℓ} {A : Type ℓ} where
  abbrev pub length : List A → ℕ
  length [] = 0
  length (x ∷ xs) = suc (length xs)

  abbrev pub any : (A → Bool) → List A → Bool
  any p [] = false
  any p (x ∷ xs) = p x || any p xs

  abbrev pub All {κ} : (A → Type κ) → List A → Type κ
  All P [] = Unit
  All P (x ∷ xs) = P x × All P xs

  pub any-append : (p : A → Bool) (xs ys : List A) → any p (xs ++ ys) ≡ (any p xs || any p ys)
  any-append p [] ys = refl
  any-append p (x ∷ xs) ys = ground (arith, any-append p xs ys)

module _ {ℓ} {A : Type ℓ} ⦃e : Eq A⦄ where
  abbrev pub elem : A → List A → Bool
  elem a = any (λ x. x == a)

-- Two lists of one length whose elements are related in order.
abbrev pub Related {ℓ} : {A B : Type ℓ} → (A → B → Type 0) → List A → List B → Type 0
Related R [] [] = Unit
Related R [] (y ∷ ys) = ⊥
Related R (x ∷ xs) [] = ⊥
Related R (x ∷ xs) (y ∷ ys) = R x y × Related R xs ys
