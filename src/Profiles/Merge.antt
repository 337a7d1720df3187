-- ===== src/Profiles/Merge.antt =====
-- What merging overrides does to the value of a parameter.
use arlon.Prelude.{
  String, ◌≡◌, refl, ◌∙◌, ap, Bool, false, ◌&&◌, Option, none, some, List, [], ◌∷◌, arith, ◌==◌,
  string_eq, if◌then◌else◌,
}
use arlon.Profiles.{Override, merge_one, merge}

abbrev matches : String → String → Override → Bool
matches bundle key o = (o.bundle == bundle) && (o.key == key)

-- The value that a list of overrides gives a parameter of a bundle: that of the first match.
abbrev pub value_of : String → String → List Override → Option String
value_of bundle key [] = none
value_of bundle key (o ∷ os) =
    let rest = value_of bundle key os in if matches bundle key o then some o.value else rest

-- The value after new overrides were given one after the other: the last match, or else the old.
abbrev pub value_after : String → String → List Override → Option String → Option String
value_after bundle key [] old = old
value_after bundle key (o ∷ os) old =
    value_after bundle key os (if matches bundle key o then some o.value else old)

value_of-merge_one :
    (bundle key : String) (o : Override) (old : List Override)
    → value_of bundle key (merge_one o old).0
      ≡ (if matches bundle key o then some o.value else value_of bundle key old)
unfolding merge_one
value_of-merge_one bundle key o [] = refl
value_of-merge_one bundle key o (x ∷ xs) = ground (arith, value_of-merge_one bundle key o xs)

-- After a merge each parameter of each bundle has the value of the last new override for it, or
-- else the value that it had.
pub value_of-merge :
    (bundle key : String) (os old : List Override)
    → value_of bundle key (merge os old).0 ≡ value_after bundle key os (value_of bundle key old)
unfolding merge
value_of-merge bundle key [] old = refl
value_of-merge bundle key (o ∷ os) old =
    value_of-merge bundle key os (merge_one o old).0
    ∙ ap (λ v. value_after bundle key os v) (value_of-merge_one bundle key o old)

merge_one_clean :
    (o : Override) (old : List Override) → (merge_one o old).1 ≡ false → (merge_one o old).0 ≡ old
unfolding merge_one
merge_one_clean o [] h = absurd (ground (arith, h))
merge_one_clean o (x ∷ xs) h = ground (arith, h, merge_one_clean o xs)

-- A merge that changes nothing leaves the list as it is.
pub merge_clean : (os old : List Override) → (merge os old).1 ≡ false → (merge os old).0 ≡ old
unfolding merge
merge_clean [] old h = refl
merge_clean (o ∷ os) old h =
    let first = merge_one_clean o old (ground (arith, h)) in
    merge_clean os (merge_one o old).0 (ground (arith, h)) ∙ first
