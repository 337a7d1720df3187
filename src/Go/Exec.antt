-- ===== src/Go/Exec.antt =====
-- Go's `(value, error)` results, and functions that change the outside world on the way. What was
-- done before an error stays done, so the world comes back beside the error too.
use arlon.Prelude.{String, ◌<>◌, ◌≡◌, refl, ap, ◌⊎◌, inl, inr, arith}

pub data Result {ℓ} (A : Type ℓ) : Type ℓ where
  ok : A → Result A
  err : String → Result A

abbrev or_else {ℓ} : {A : Type ℓ} → A → Result A → A
or_else a (ok b) = b
or_else a (err e) = a

-- A panic ends the program; here it is an error, which the callers pass on.
abbrev pub nil_map : String
nil_map = "panic: assignment to entry in nil map"

abbrev pub nil_pointer : String
nil_pointer = "panic: runtime error: invalid memory address or nil pointer dereference"

infixl 10 ◌>>=ᵣ◌
abbrev pub ◌>>=ᵣ◌ {ℓ κ} : {A : Type ℓ} {B : Type κ} → Result A → (A → Result B) → Result B
ok a >>=ᵣ f = f a
err e >>=ᵣ f = err e

abbrev pub Exec {ℓ κ} : Type ℓ → Type κ → Type (ℓ ⊔ κ)
Exec W A = W → Result A × W

module _ {ℓ κ} {W : Type ℓ} {A : Type κ} where
  abbrev pub pure : A → Exec W A
  pure a w = (ok a, w)

  abbrev pub fail : String → Exec W A
  fail e w = (err e, w)

module _ {ℓ κ μ} {W : Type ℓ} {A : Type κ} {B : Type μ} where
  abbrev pub continue : Result A × W → (A → Exec W B) → Result B × W
  continue r f = elim r.0 [ ok a ↦ f a r.1 | err e ↦ (err e, r.1) ]

  infixl 10 ◌>>=◌ ◌>>◌
  abbrev pub ◌>>=◌ : Exec W A → (A → Exec W B) → Exec W B
  ◌>>=◌ m f w = continue (m w) f

  abbrev pub ◌>>◌ : Exec W A → Exec W B → Exec W B
  m >> n = m >>= λ _. n

-- `fmt.Errorf("context: %s", err)` on the error of a call.
abbrev pub wrap {ℓ} : {A : Type ℓ} → String → Result A → Result A
wrap context (ok a) = ok a
wrap context (err e) = err (context <> e)

module _ {ℓ κ} {W : Type ℓ} {A : Type κ} where
  abbrev pub wrapped : String → Exec W A → Exec W A
  wrapped context m w = (wrap context (m w).0, (m w).1)

  -- A call that reads the world and leaves it alone.
  abbrev pub reads : (W → Result A) → Exec W A
  reads f w = (f w, w)

-- A sequence that ends well: its first part did, and its rest went on from there.
pub continue-eq-ok {ℓ κ μ} :
    {W : Type ℓ} {A : Type κ} {B : Type μ} (r : Result A × W) (f : A → Exec W B) {b : B} {w' : W}
    → continue r f ≡ (ok b, w')
    → (a : A) × (r ≡ (ok a, r.1)) × (f a r.1 ≡ (ok b, w'))
continue-eq-ok (ok a, w) f h = (a, refl, h)
continue-eq-ok (err e, w) f h = absurd (ground arith)

-- Two calls, one after the other, with the world between them.
pub both-eq-ok {ℓ κ μ} :
    {W : Type ℓ} {A : Type κ} {B : Type μ} (m : Exec W A) (n : Exec W B) (w : W) {b : B} {w' : W}
    → (m >> n) w ≡ (ok b, w')
    → (a : A) × ((v : W) × (m w ≡ (ok a, v)) × (n v ≡ (ok b, w')))
both-eq-ok m n w h =
    let (a, first, rest) = continue-eq-ok (m w) (λ _. n) h in (a, ((m w).1, first, rest))

-- A call and then a result that is fixed.
module _ {ℓ κ} {W : Type ℓ} {A : Type κ} where
  pub continue-pure_ok :
      (r : Result (Unit {0}) × W) (a : A) {b : A} {w' : W}
      → continue r (λ _. pure a) ≡ (ok b, w')
      → r ≡ (ok tt, w')
  continue-pure_ok (ok tt, v) a h = ground arith
  continue-pure_ok (err e, v) a h = absurd (ground arith)

  pub continue-pure_err :
      (r : Result (Unit {0}) × W) (a : A) {e : String} {w' : W}
      → continue r (λ _. pure a) ≡ (err e, w')
      → r ≡ (err e, w')
  continue-pure_err (ok tt, v) a h = absurd (ground arith)
  continue-pure_err (err e, v) a h = ground arith

-- What the first part leaves true and the rest keeps, the sequence leaves true.
pub continue-keeps {ℓ κ μ ν} :
    {W : Type ℓ} {A : Type κ} {B : Type μ} (P : W → Type ν) (r : Result A × W) (f : A → Exec W B)
    → P r.1
    → ((a : A) (w : W) → P w → P (f a w).1)
    → P (continue r f).1
continue-keeps P (ok a, w) f h keep = keep a w h
continue-keeps P (err e, w) f h keep = h

wrap-eq-ok {ℓ κ} :
    {W : Type ℓ} {A : Type κ} (context : String) (r : Result A × W) {a : A} {w' : W}
    → ◌≡◌ {A = Result A × W} (wrap context r.0, r.1) (ok a, w')
    → r ≡ (ok a, w')
wrap-eq-ok context (ok b, v) h = h
wrap-eq-ok context (err x, v) h = absurd (ground arith)

-- A wrapped call that ends well is the call itself.
pub wrapped-eq-ok {ℓ κ} :
    {W : Type ℓ} {A : Type κ} (context : String) (m : Exec W A) (w : W) {a : A} {w' : W}
    → wrapped context m w ≡ (ok a, w')
    → m w ≡ (ok a, w')
wrapped-eq-ok context m w h = wrap-eq-ok context (m w) h

pub Result-cases {ℓ} :
    {A : Type ℓ} (r : Result A) → ((a : A) × (r ≡ ok a)) ⊎ ((e : String) × (r ≡ err e))
Result-cases (ok a) = inl (a, refl)
Result-cases (err e) = inr (e, refl)

pub ok_injective {ℓ} : {A : Type ℓ} {a b : A} → ok a ≡ ok b → a ≡ b
ok_injective {A} {a} h = ap (λ (r : Result A). or_else a r) h
