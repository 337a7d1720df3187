-- ===== src/Go/Strconv.antt =====
-- The numbers and the Boolean values of Go's `strconv`. An `int` has 64 bits.
pub mod RoundTrip
use Prim.Native.Char.{Char, code}
use arlon.Prelude.{
  ℕ, zero, suc, String, ◌<>◌, ◌+◌, ◌-◌, ◌*◌, ◌/◌, ◌%◌, ◌^◌, ◌<◌, ◌≤◌, ◌≡◌, refl, Bool, true, false,
  ◌&&◌, Option, none, some, List, [], ◌∷◌, arith, ltb, leb, eqb, elem, string_eq, if◌then◌else◌,
  Bool-cases, inl, inr,
}
use arlon.Go.Exec.{Result, ok, err}

-- `negsuc n` is -(n + 1).
pub data ℤ : Type 0 where
  pos : ℕ → ℤ
  negsuc : ℕ → ℤ

abbrev pub IsInt64 : ℤ → Type 0
IsInt64 (pos n) = n < 2 ^ 63
IsInt64 (negsuc n) = n < 2 ^ 63

nth : ℕ → List String → String
nth n [] = ""
nth zero (x ∷ xs) = x
nth (suc n) (x ∷ xs) = nth n xs

unfoldable pub digit : ℕ → String
unfolding nth
digit n = nth n ("0" ∷ "1" ∷ "2" ∷ "3" ∷ "4" ∷ "5" ∷ "6" ∷ "7" ∷ "8" ∷ "9" ∷ [])

unfoldable pub digits : ℕ → ℕ → String
digits zero n = ""
digits (suc fuel) n =
    let front = digits fuel (n / 10) in if ltb n 10 then digit n else front <> digit (n % 10)

-- More fuel than the number itself changes nothing.
pub digits_enough : (f g n : ℕ) → n < f → n < g → digits f n ≡ digits g n
unfolding digits
digits_enough zero g n hf hg = absurd (omega arith)
digits_enough (suc f) zero n hf hg = absurd (omega arith)
digits_enough (suc f) (suc g) n hf hg = elim (Bool-cases (ltb n 10)) [
  | inl e ↦ rw (e) refl
  | inr e ↦ rw (e, digits_enough f g (n / 10) (ground arith) (ground arith)) refl
]

-- The digits of a number that is not negative.
unfoldable pub format_uint : ℕ → String
unfolding digits
format_uint n = digits (suc n) n

unfoldable pub itoa : ℤ → String
itoa (pos n) = format_uint n
itoa (negsuc n) = "-" <> format_uint (suc n)

-- The number that the digits `s` give when they follow those of `acc`.
unfoldable pub scan : ℕ → String → Option ℕ
scan acc String.[] = some acc
scan acc (String.◌∷◌ c s) =
    let rest = scan (acc * 10 + (code c - b'0')) s in
    if leb b'0' (code c) && leb (code c) b'9' then rest else none

abbrev pub magnitude : String → Option ℕ
magnitude String.[] = none
magnitude (String.◌∷◌ c s) = scan 0 (String.◌∷◌ c s)

abbrev atoi_err : {A : Type 0} → String → String → Result A
atoi_err s why = err ("strconv.Atoi: parsing \"" <> (s <> ("\": " <> why)))

abbrev pub positive : String → Option ℕ → Result ℤ
positive s none = atoi_err s "invalid syntax"
positive s (some n) = if ltb n (2 ^ 63) then ok (pos n) else atoi_err s "value out of range"

abbrev negative : String → Option ℕ → Result ℤ
negative s none = atoi_err s "invalid syntax"
negative s (some zero) = ok (pos 0)
negative s (some (suc n)) =
    if ltb n (2 ^ 63) then ok (negsuc n) else atoi_err s "value out of range"

-- `strconv.Atoi`: digits after at most one sign. A text that is too long and no number either is
-- an error of syntax here.
unfoldable pub atoi : String → Result ℤ
atoi String.[] = positive "" none
atoi (String.◌∷◌ c s) =
    if eqb (code c) b'-'
    then negative (String.◌∷◌ c s) (magnitude s)
    else if eqb (code c) b'+'
    then positive (String.◌∷◌ c s) (magnitude s)
    else positive (String.◌∷◌ c s) (scan 0 (String.◌∷◌ c s))

-- `strconv.FormatBool`, and `%v` of a Boolean.
abbrev pub format_bool : Bool → String
format_bool true = "true"
format_bool false = "false"

unfoldable pub parse_bool : String → Result Bool
parse_bool s =
    if elem s ("1" ∷ "t" ∷ "T" ∷ "TRUE" ∷ "true" ∷ "True" ∷ [])
    then ok true
    else if elem s ("0" ∷ "f" ∷ "F" ∷ "FALSE" ∷ "false" ∷ "False" ∷ [])
    then ok false
    else err ("strconv.ParseBool: parsing \"" <> (s <> "\": invalid syntax"))
