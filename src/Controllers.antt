-- ===== src/Controllers.antt =====
-- controllers/: the reconcilers of the resources that Arlon defines. Each is called with the name of
-- a resource, as often as controller-runtime likes. Here stands what they share.
pub mod Cluster
pub mod Registration
pub mod CallHome
pub mod Watches
use arlon.Prelude.{
  ℕ, String, ◌≡◌, refl, inl, inr, Bool, true, false, Option, none, some, if◌then◌else◌,
}
use arlon.Go.Exec.{Result, ok, err, Exec, reads, Result-cases}

-- The answer of a Kubernetes `Get`: `missing` is an error that `IsNotFound` holds of.
pub data Reply (X : Type 0) : Type 0 where
  present : X → Reply X
  missing : Reply X
  failed : String → Reply X

-- `ctrl.Result`, with the delay in seconds.
pub record Outcome : Type 0 where
  pub requeue : Bool
  pub requeue_after : ℕ

abbrev pub finished : Outcome
finished = record { requeue = false; requeue_after = 0 }

abbrev pub requeued : Outcome
requeued = record { requeue = true; requeue_after = 0 }

abbrev pub retry_delay : Outcome
retry_delay = record { requeue = false; requeue_after = 10 }

module _ {W A B : Type 0} where
  unfoldable pub either : Result A × W → (String → Exec W B) → (A → Exec W B) → Result B × W
  either r handle go = elim r.0 [ ok a ↦ go a r.1 | err e ↦ handle e r.1 ]

  -- `if err != nil { return handle(err) }` behind a call.
  abbrev pub attempt : Exec W A → (String → Exec W B) → (A → Exec W B) → Exec W B
  attempt m handle go w = either (m w) handle go

  pub either-keeps :
      (P : W → Type 0) (r : Result A × W) (handle : String → Exec W B) (go : A → Exec W B)
      → P r.1
      → ((e : String) (w : W) → P w → P (handle e w).1)
      → ((a : A) (w : W) → P w → P (go a w).1)
      → P (either r handle go).1
  unfolding either
  either-keeps P (ok a, w) handle go h on_err on_ok = on_ok a w h
  either-keeps P (err e, w) handle go h on_err on_ok = on_err e w h

module _ {W B : Type 0} (P : W → Type 0) where
  pub if-keeps :
      (b : Bool) (m n : Exec W B) (w : W)
      → (b ≡ true → P (m w).1)
      → (b ≡ false → P (n w).1)
      → P ((if b then m else n) w).1
  if-keeps true m n w on_true on_false = on_true refl
  if-keeps false m n w on_true on_false = on_false refl

  pub option-keeps :
      {X : Type 0} (o : Option X) (m : Exec W B) (f : X → Exec W B) (w : W)
      → (o ≡ none → P (m w).1)
      → ((x : X) → o ≡ some x → P (f x w).1)
      → let run : Exec W B = elim o [ none ↦ m | some x ↦ f x ] in P (run w).1
  option-keeps none m f w on_none on_some = on_none refl
  option-keeps (some x) m f w on_none on_some = on_some x refl

  -- A call that only reads.
  pub reads-keeps :
      {X : Type 0} (f : W → Result X) (handle : String → Exec W B) (go : X → Exec W B) (w : W)
      → ((e : String) → f w ≡ err e → P (handle e w).1)
      → ((x : X) → f w ≡ ok x → P (go x w).1)
      → P (attempt (reads f) handle go w).1
  unfolding either
  reads-keeps f handle go w on_err on_ok = elim (Result-cases (f w)) [
    | inl (x, e) ↦ rw (e) (on_ok x e)
    | inr (x, e) ↦ rw (e) (on_err x e)
  ]

  -- A call whose way on knows that it ended well.
  pub either-keeps_known :
      {X : Type 0} (r : Result X × W) (handle : String → Exec W B) (go : X → Exec W B)
      → P r.1
      → ((e : String) (v : W) → P v → P (handle e v).1)
      → ((x : X) (v : W) → r ≡ (ok x, v) → P v → P (go x v).1)
      → P (either r handle go).1
  unfolding either
  either-keeps_known (ok x, v) handle go h on_err on_ok = on_ok x v refl h
  either-keeps_known (err e, v) handle go h on_err on_ok = on_err e v h
