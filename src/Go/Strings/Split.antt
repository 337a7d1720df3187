-- ===== src/Go/Strings/Split.antt =====
-- Splitting takes back a join.
use Prim.Native.Char.{Char, code}
use Prim.Native.String.append as append
use arlon.Prelude.{
  ℕ, String, ◌<>◌, ◌≡◌, refl, inl, inr, Bool, true, false, not, ◌&&◌, [], ◌∷◌, arith, eqb,
  Bool-cases,
}
use arlon.Go.Strings.{push, split}

-- The character `sep` does not occur.
abbrev pub lacks : ℕ → String → Bool
lacks sep String.[] = true
lacks sep (String.◌∷◌ c s) = let rest = lacks sep s in not (eqb (code c) sep) && rest

pub split_lacking : (sep : ℕ) (s : String) → lacks sep s ≡ true → split sep s ≡ s ∷ []
unfolding split push
split_lacking sep String.[] h = refl
split_lacking sep (String.◌∷◌ c s) h = elim (Bool-cases (eqb (code c) sep)) [
  | inl e ↦ absurd (ground (arith, e, h))
  | inr e ↦ rw (e, split_lacking sep s (ground (arith, e, h))) refl
]

-- A part without the separator, then the separator, then the rest.
pub split_part :
    (sep : ℕ) (c : Char) (s t : String)
    → code c ≡ sep
    → lacks sep s ≡ true
    → split sep (s <> (String.◌∷◌ c String.[] <> t)) ≡ s ∷ split sep t
unfolding split push
split_part sep c String.[] t e h =
    let found : eqb (code c) sep ≡ true = ground (arith, e) in
    rw (append.nil (String.◌∷◌ c String.[] <> t), append.cons c String.[] t, append.nil t, found)
      refl
split_part sep c (String.◌∷◌ d s) t e h =
    let other : eqb (code d) sep ≡ false = ground (arith, h) in
    rw
      (
        append.cons d s (String.◌∷◌ c String.[] <> t),
        other,
        split_part sep c s t e (ground (arith, h)),
      )
      refl
