-- ===== src/Go/Sort.antt =====
-- `sort.Strings`: strings in the order of their bytes, which is that of their characters.
use Prim.Native.Char.{code}
use arlon.Prelude.{
  String, ◌≡◌, refl, Bool, true, false, ◌||◌, ◌&&◌, List, [], ◌∷◌, ltb, eqb, if◌then◌else◌,
}

unfoldable pub string_leb : String → String → Bool
string_leb String.[] t = true
string_leb (String.◌∷◌ c s) String.[] = false
string_leb (String.◌∷◌ c s) (String.◌∷◌ d t) =
    let rest = string_leb s t in ltb (code c) (code d) || eqb (code c) (code d) && rest

unfoldable pub insort : String → List String → List String
insort s [] = s ∷ []
insort s (t ∷ ts) = let rest = insort s ts in if string_leb s t then s ∷ t ∷ ts else t ∷ rest

unfoldable pub sort : List String → List String
unfolding insort
sort [] = []
sort (s ∷ ss) = insort s (sort ss)

sort_example : sort ("xplane" ∷ "capi" ∷ "azure" ∷ []) ≡ "azure" ∷ "capi" ∷ "xplane" ∷ []
unfolding sort insort string_leb
sort_example = refl
