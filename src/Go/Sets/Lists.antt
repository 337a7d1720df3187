-- ===== src/Go/Sets/Lists.antt =====
-- Sets as lists with distinct members: a library of the kind that the interface describes.
use arlon.Prelude.{
  String, ◌≡◌, refl, sym, ◌∙◌, Bool, true, ◌||◌, ◌&&◌, List, [], ◌∷◌, ◌++◌, foldl, arith, ◌==◌,
  ==-refl, string_eq, elem, any-append, if◌then◌else◌,
}
use arlon.Go.Sets.{Sets, IsLawful}

unfoldable pub add : List String → String → List String
add s a = if elem a s then s else s ++ a ∷ []

unfoldable pub subset : List String → List String → Bool
subset [] t = true
subset (x ∷ s) t = elem x t && subset s t

abbrev pub list_sets : Sets
list_sets = record {
  Set = List String;
  empty = [];
  add = add;
  contains = λ s a. elem a s;
  union = λ s t. foldl add s t;
  equal = λ s t. subset s t && subset t s;
  subset = subset;
  to_slice = λ s. s;
}

elem-add : (s : List String) (a b : String) → elem b (add s a) ≡ (a == b || elem b s)
unfolding add
elem-add s a b = ground (arith, any-append (λ x. x == b) s (a ∷ []))

elem-foldl : (t s : List String) (a : String) → elem a (foldl add s t) ≡ (elem a s || elem a t)
elem-foldl [] s a = ground arith
elem-foldl (x ∷ t) s a = ground (arith, elem-foldl t (add s x) a, elem-add s x a)

subset_sound :
    (s t : List String) → subset s t ≡ true → (a : String) → elem a s ≡ true → elem a t ≡ true
unfolding subset
subset_sound [] t h a e = cc
subset_sound (x ∷ s) t h a e = ground (arith, subset_sound s t (ground arith) a)

subset_complete :
    (s t : List String) → ((a : String) → elem a s ≡ true → elem a t ≡ true) → subset s t ≡ true
unfolding subset
subset_complete [] t h = refl
subset_complete (x ∷ s) t h =
    ground
      (arith, h x (ground (arith, ==-refl x)), subset_complete s t (λ a e. h a (ground (arith, e))))

equal_sound :
    (s t : List String) → (subset s t && subset t s) ≡ true → (a : String) → elem a s ≡ elem a t
equal_sound s t h a =
    ground (arith, subset_sound s t (ground arith) a, subset_sound t s (ground arith) a)

equal_complete :
    (s t : List String) → ((a : String) → elem a s ≡ elem a t) → (subset s t && subset t s) ≡ true
equal_complete s t h =
    ground (arith, subset_complete s t (λ a e. sym (h a) ∙ e), subset_complete t s (λ a e. h a ∙ e))

pub list_sets-IsLawful : IsLawful list_sets
list_sets-IsLawful = record {
  contains-empty = λ a. refl;
  contains-add = elem-add;
  contains-union = λ s t a. elem-foldl t s a;
  equal_iff = λ s t. (equal_sound s t, equal_complete s t);
  subset_iff = λ s t. (subset_sound s t, subset_complete s t);
  elem-to_slice = λ s a. refl;
}
