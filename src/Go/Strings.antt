-- ===== src/Go/Strings.antt =====
-- `strings.Split` and `strings.Join` for a separator of one character.
pub mod Split
use Prim.Native.Char.{Char, code}
use Prim.Native.String.append as append
use mathlib.Core.Path.{subst}
use arlon.Prelude.{◌≢◌, ◌<>◌, ℕ, String, ◌≡◌, refl, List, [], ◌∷◌, eqb, if◌then◌else◌}

abbrev pub comma : ℕ
comma = b','

unfoldable pub push : Char → List String → List String
push c [] = (String.◌∷◌ c String.[]) ∷ []
push c (p ∷ ps) = String.◌∷◌ c p ∷ ps

-- `strings.Split(s, sep)`: always at least one part.
unfoldable pub split : ℕ → String → List String
unfolding push
split sep String.[] = "" ∷ []
split sep (String.◌∷◌ c s) =
    let rest = split sep s in if eqb (code c) sep then "" ∷ rest else push c rest

split_example : split comma "a,,b" ≡ "a" ∷ "" ∷ "b" ∷ []
unfolding split
split_example = refl

abbrev IsFilled : String → Type 0
IsFilled String.[] = ⊥
IsFilled (String.◌∷◌ c s) = Unit

-- A text that ends in a text that is not empty is not empty.
pub append_filled : (s t : String) → t ≢ "" → (s <> t) ≢ ""
append_filled String.[] t filled e = filled (rw (append.nil t) at e)
append_filled (String.◌∷◌ c s) t filled e = subst (λ u. IsFilled u) (rw (append.cons c s t) at e) tt

pub cons_filled : (c : Char) (s t : String) → (String.◌∷◌ c s <> t) ≢ ""
cons_filled c s t e = subst (λ u. IsFilled u) (rw (append.cons c s t) at e) tt
