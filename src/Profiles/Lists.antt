-- ===== src/Profiles/Lists.antt =====
-- Lists of names, separated by commas.
use text.Mathlib.TextLemmas.{append-nil}
use arlon.Prelude.{
  String, ◌<>◌, ◌≡◌, ◌≢◌, refl, ◌∙◌, ap, sym, inl, inr, true, List, [], ◌∷◌, arith, All, ◌==◌,
  string_eq, Bool-cases,
}
use arlon.Go.Strings.{comma, split}
use arlon.Go.Strings.Split.{lacks, split_lacking, split_part}
use arlon.Profiles.{items, comma_separated_from_string_list, string_list_from_comma_separated}

abbrev pub LackCommas : List String → Type 0
LackCommas = All (λ s. lacks comma s ≡ true)

split_nothing : split comma "" ≡ "" ∷ []
unfolding split
split_nothing = refl

split-items :
    (item : String) (rest : List String)
    → LackCommas (item ∷ rest)
    → split comma (item <> items rest) ≡ item ∷ rest
split-items item [] (l, _) = rw (append-nil item) (split_lacking comma item l)
split-items item (next ∷ rest) (l, ls) =
    split_part comma _ item (next <> items rest) refl l
    ∙ ap (λ ps. item ∷ ps) (split-items next rest ls)

-- A list whose items have no comma, and which is not just one empty item, is read back from its
-- print.
pub string_list_from_comma_separated-comma_separated_from_string_list :
    (l : List String)
    → LackCommas l
    → l ≢ "" ∷ []
    → string_list_from_comma_separated (comma_separated_from_string_list l) ≡ l
unfolding string_list_from_comma_separated comma_separated_from_string_list
string_list_from_comma_separated-comma_separated_from_string_list [] ls filled =
    unfold string_eq in refl
string_list_from_comma_separated-comma_separated_from_string_list (item ∷ rest) ls filled =
    elim (Bool-cases ((item <> items rest) == "")) [
      | inr e ↦
          rw (string_list_from_comma_separated, comma_separated_from_string_list, e)
            (split-items item rest ls)
      | inl e ↦
          let none_left : (item <> items rest) ≡ "" = ground (arith, e) in
          absurd
            (filled (sym (split-items item rest ls) ∙ (ap (split comma) none_left ∙ split_nothing)))
    ]
