-- ===== src/Go/Sets.antt =====
-- The sets of strings of github.com/deckarep/golang-set, a library that the program calls: an
-- interface, with the documented behaviour that the program relies on.
pub mod Lists
use arlon.Prelude.{
  String, ◌≡◌, ◌↔◌, Bool, true, false, ◌||◌, List, [], ◌∷◌, foldl, arith, ◌==◌, string_eq, elem,
}

pub record Sets : Type 1 where
  pub Set : Type 0
  pub empty : Set
  pub add : Set → String → Set
  pub contains : Set → String → Bool
  pub union : Set → Set → Set
  pub equal : Set → Set → Bool
  pub subset : Set → Set → Bool
  -- the members, in an order that the library leaves open
  pub to_slice : Set → List String

pub record IsLawful (S : Sets) : Type 0 where
  pub contains-empty : (a : String) → S.contains S.empty a ≡ false
  pub contains-add :
      (s : S.Set) (a b : String) → S.contains (S.add s a) b ≡ (a == b || S.contains s b)
  pub contains-union :
      (s t : S.Set) (a : String) → S.contains (S.union s t) a ≡ (S.contains s a || S.contains t a)
  pub equal_iff :
      (s t : S.Set) → (S.equal s t ≡ true) ↔ ((a : String) → S.contains s a ≡ S.contains t a)
  pub subset_iff :
      (s t : S.Set)
      → (S.subset s t ≡ true) ↔ ((a : String) → S.contains s a ≡ true → S.contains t a ≡ true)
  pub elem-to_slice : (s : S.Set) (a : String) → elem a (S.to_slice s) ≡ S.contains s a

-- `NewSet(items...)`
abbrev pub from_slice : (S : Sets) → List String → S.Set
from_slice S = foldl S.add S.empty

module _ (S : Sets) (L : IsLawful S) where
  contains-foldl :
      (l : List String) (s : S.Set) (a : String)
      → S.contains (foldl S.add s l) a ≡ (S.contains s a || elem a l)
  contains-foldl [] s a = ground arith
  contains-foldl (x ∷ l) s a = ground (arith, contains-foldl l (S.add s x) a, L.contains-add s x a)

  pub contains-from_slice :
      (l : List String) (a : String) → S.contains (from_slice S l) a ≡ elem a l
  contains-from_slice l a = ground (arith, contains-foldl l S.empty a, L.contains-empty a)
