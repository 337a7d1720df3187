-- ===== src/Go/Strconv/RoundTrip.antt =====
-- Numbers and Boolean values are read back from what is printed.
use Prim.Native.Char.{Char, code}
use Prim.Native.String.append as append
use arlon.Prelude.{
  ℕ, zero, suc, String, ◌<>◌, ◌+◌, ◌-◌, ◌*◌, ◌/◌, ◌%◌, ◌<◌, ◌≤◌, ◌^◌, ◌<◌, ◌≡◌, ◌≢◌, differs, ◌==◌,
  Bool, false, refl, Bool, true, false, some, arith, ltb, leb, eqb, string_eq, Bool-cases, inl, inr,
  ap,
}
use text.Mathlib.TextLemmas.{append_assoc, append-nil}
use arlon.Go.Strings.{append_filled}
use arlon.Go.Exec.{ok}
use arlon.Go.Strconv.{
  ℤ, pos, negsuc, IsInt64, digit, digits, format_uint, itoa, scan, magnitude, positive, atoi,
  format_bool, parse_bool,
}

scan_head :
    (c : Char) (a d : ℕ) (t : String)
    → code c ≡ b'0' + d
    → d < 10
    → scan a (String.◌∷◌ c String.[] <> t) ≡ scan (a * 10 + d) t
unfolding scan
scan_head c a d t e h =
    let low : leb b'0' (b'0' + d) ≡ true = ground arith in
    let high : leb (b'0' + d) b'9' ≡ true = ground arith in
    let offset : b'0' + d - b'0' ≡ d = omega arith in
    rw (append.cons c String.[] t, append.nil t, e, low, high, offset) refl

scan-digit : (d a : ℕ) (t : String) → d < 10 → scan a (digit d <> t) ≡ scan (a * 10 + d) t
unfolding digit
scan-digit zero a t h = scan_head _ a 0 t refl h
scan-digit (suc zero) a t h = scan_head _ a 1 t refl h
scan-digit (suc (suc zero)) a t h = scan_head _ a 2 t refl h
scan-digit (suc (suc (suc zero))) a t h = scan_head _ a 3 t refl h
scan-digit (suc (suc (suc (suc zero)))) a t h = scan_head _ a 4 t refl h
scan-digit (suc (suc (suc (suc (suc zero))))) a t h = scan_head _ a 5 t refl h
scan-digit (suc (suc (suc (suc (suc (suc zero)))))) a t h = scan_head _ a 6 t refl h
scan-digit (suc (suc (suc (suc (suc (suc (suc zero))))))) a t h = scan_head _ a 7 t refl h
scan-digit (suc (suc (suc (suc (suc (suc (suc (suc zero)))))))) a t h = scan_head _ a 8 t refl h
scan-digit (suc (suc (suc (suc (suc (suc (suc (suc (suc zero))))))))) a t h =
    scan_head _ a 9 t refl h
scan-digit (suc (suc (suc (suc (suc (suc (suc (suc (suc (suc d)))))))))) a t h =
    absurd (omega arith)

scan-digits : (f n : ℕ) (t : String) → n < f → scan 0 (digits f n <> t) ≡ scan n t
unfolding digits
scan-digits zero n t h = absurd (omega arith)
scan-digits (suc f) n t h = elim (Bool-cases (ltb n 10)) [
  | inl e ↦ rw (e, scan-digit n 0 t (ground arith)) (ap (λ m. scan m t) (omega arith))
  | inr e ↦
      rw
        (
          e,
          append_assoc (digits f (n / 10)) (digit (n % 10)) t,
          scan-digits f (n / 10) (digit (n % 10) <> t) (ground arith),
          scan-digit (n % 10) (n / 10) t (ground arith),
        )
        (ap (λ m. scan m t) (omega arith))
]

scan-format_uint : (n : ℕ) → scan 0 (format_uint n) ≡ some n
unfolding format_uint scan
scan-format_uint n = rw (append-nil (digits (suc n) n)) at (scan-digits (suc n) n "" (omega arith))

first_digit : format_uint 0 ≢ ""
unfolding format_uint digits digit string_eq
first_digit = differs (format_uint 0) "" refl

format_uint-filled : (n : ℕ) → format_uint n ≢ ""
unfolding format_uint scan
format_uint-filled n e =
    let zero_ : n ≡ 0 = ground (arith, rw (e) at (scan-format_uint n)) in
    absurd (let k = rw (zero_) at e in first_digit k)

magnitude_lem : (s : String) (n : ℕ) → s ≢ "" → scan 0 s ≡ some n → magnitude s ≡ some n
magnitude_lem String.[] n filled h = absurd (filled refl)
magnitude_lem (String.◌∷◌ c s) n filled h = h

scan_low : (c : Char) (s : String) (acc n : ℕ) → scan acc (String.◌∷◌ c s) ≡ some n → b'0' ≤ code c
unfolding scan
scan_low c s acc n h = ground arith

atoi_unsigned : (s : String) (n : ℕ) → s ≢ "" → scan 0 s ≡ some n → atoi s ≡ positive s (some n)
unfolding atoi
atoi_unsigned String.[] n filled h = absurd (filled refl)
atoi_unsigned (String.◌∷◌ c s) n filled h =
    let low = scan_low c s 0 n h in
    let minus : eqb (code c) b'-' ≡ false = ground (arith, low) in
    let plus : eqb (code c) b'+' ≡ false = ground (arith, low) in rw (minus, plus, h) refl

atoi_minus :
    (c : Char) (s : String) (n : ℕ)
    → code c ≡ b'-'
    → s ≢ ""
    → scan 0 s ≡ some (suc n)
    → n < 2 ^ 63
    → atoi (String.◌∷◌ c String.[] <> s) ≡ ok (negsuc n)
unfolding atoi
atoi_minus c s n minus filled h small =
    rw (append.cons c String.[] s, append.nil s, minus, magnitude_lem s (suc n) filled h)
      (ground (arith, small))

pub atoi-itoa : (z : ℤ) → IsInt64 z → atoi (itoa z) ≡ ok z
unfolding itoa
atoi-itoa (pos n) h =
    rw (atoi_unsigned (format_uint n) n (format_uint-filled n) (scan-format_uint n)) (ground arith)
atoi-itoa (negsuc n) h =
    atoi_minus _ (format_uint (suc n)) n refl (format_uint-filled (suc n))
      (scan-format_uint (suc n)) h

pub parse_bool-format_bool : (b : Bool) → parse_bool (format_bool b) ≡ ok b
unfolding parse_bool string_eq
parse_bool-format_bool true = refl
parse_bool-format_bool false = refl

-- A printed number is not empty.
pub itoa-filled : (z : ℤ) → (itoa z == "") ≡ false
unfolding itoa
itoa-filled (pos n) = elim (Bool-cases (format_uint n == "")) [
  | inr e ↦ e
  | inl e ↦ absurd (format_uint-filled n (ground (arith, e)))
]
itoa-filled (negsuc n) = elim (Bool-cases (("-" <> format_uint (suc n)) == "")) [
  | inr e ↦ e
  | inl e ↦
      absurd
        (append_filled "-" (format_uint (suc n)) (format_uint-filled (suc n)) (ground (arith, e)))
]
