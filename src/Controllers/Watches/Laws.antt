-- ===== src/Controllers/Watches/Laws.antt =====
-- What a controller that watches leaves behind.
use arlon.Prelude.{◌≡◌, refl, ◌⊎◌, inl, inr, Bool, true, false, arith, if◌then◌else◌, string_eq}
use arlon.Go.Exec.{ok, pure, continue-pure_ok}
use arlon.Go.Sets.{Sets}
use arlon.Go.Sets
use arlon.AppProfile.External.{Api}
use arlon.AppProfile.{reconcile_everything}
use arlon.AppProfile.Apps.{Decodes}
use arlon.AppProfile.Everything.{IsLawful, Snapshot}
use arlon.AppProfile.Convergence.{IsOrderly, Reconciled, reconcile_everything-Reconciled}
use arlon.Controllers.{present, missing, failed, finished}
use arlon.Controllers.Watches.{
  lacks_type, everything, reconcile_profile, reconcile_application, reconcile_application_set,
  Event, profile, application, application_set, handle,
}

-- An application that is gone, and resources that are not of Arlon's types.
abbrev pub is_irrelevant : Event → Bool
is_irrelevant (profile r) = false
is_irrelevant (application missing) = true
is_irrelevant (application (failed e)) = false
is_irrelevant (application (present labels)) = lacks_type "cluster-app" labels
is_irrelevant (application_set missing) = false
is_irrelevant (application_set (failed e)) = false
is_irrelevant (application_set (present labels)) = lacks_type "application" labels

module _ (S : Sets) (L : Sets.IsLawful S) (A : Api) (lawful : IsLawful A)
    (d : Decodes A.unmarshal) where
  open A use {World}

  Left : {w : World} → Snapshot A w → Bool → World → Type 0
  Left {w} s skipped w' =
      ((skipped ≡ true) × (w' ≡ w)) ⊎ ((skipped ≡ false) × Reconciled S L A s w')

  everything-Left :
      {w w' : World} (s : Snapshot A w)
      → IsOrderly A s
      → everything S A w ≡ (ok finished, w')
      → Left s false w'
  unfolding Left
  everything-Left {w} s orderly done = inr (
    refl,
    reconcile_everything-Reconciled S L A lawful d s orderly
        (continue-pure_ok (reconcile_everything S A w) finished done),
  )

  unless-Left :
      (skipped : Bool) {w w' : World} (s : Snapshot A w)
      → IsOrderly A s
      → (if skipped then pure finished else everything S A) w ≡ (ok finished, w')
      → Left s skipped w'
  unfolding Left
  unless-Left true s orderly done = inl (refl, ground arith)
  unless-Left false s orderly done = everything-Left s orderly done

  handle-Left :
      (e : Event) {w w' : World} (s : Snapshot A w)
      → IsOrderly A s
      → handle S A e w ≡ (ok finished, w')
      → Left s (is_irrelevant e) w'
  unfolding handle reconcile_profile reconcile_application reconcile_application_set Left
  handle-Left (profile missing) s orderly done = everything-Left s orderly done
  handle-Left (profile (failed e)) s orderly done = absurd (ground arith)
  handle-Left (profile (present p)) s orderly done = everything-Left s orderly done
  handle-Left (application missing) s orderly done = inl (refl, ground arith)
  handle-Left (application (failed e)) s orderly done = absurd (ground arith)
  handle-Left (application (present labels)) s orderly done =
      unless-Left (lacks_type "cluster-app" labels) s orderly done
  handle-Left (application_set missing) s orderly done = everything-Left s orderly done
  handle-Left (application_set (failed e)) s orderly done = absurd (ground arith)
  handle-Left (application_set (present labels)) s orderly done =
      unless-Left (lacks_type "application" labels) s orderly done

  -- Over lawful sets and an API that keeps what it is given and decodes what the program writes:
  -- whatever woke the controller, a call that ends without asking for another has left all
  -- resources reconciled, or the event was irrelevant and the world is as it was: an application
  -- that is gone, or a resource that lacks Arlon's label. The names of each kind are distinct, and
  -- those of clusters plain.
  pub handle-Reconciled :
      (e : Event) {w w' : World} (s : Snapshot A w)
      → IsOrderly A s
      → handle S A e w ≡ (ok finished, w')
      → ((is_irrelevant e ≡ true) × (w' ≡ w)) ⊎ ((is_irrelevant e ≡ false) × Reconciled S L A s w')
  unfolding Left
  handle-Reconciled e s orderly done = handle-Left e s orderly done
