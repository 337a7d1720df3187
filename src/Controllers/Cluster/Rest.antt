-- ===== src/Controllers/Cluster/Rest.antt =====
-- When the reconciler may rest, and which errors it returns.
use arlon.Prelude.{String, ◌≡◌, refl, inl, inr, arith, string_eq, ◌≢◌}
use arlon.Go.Exec.{ok, err, pure, continue-pure_err, Result-cases}
use arlon.Controllers.{Reply, present, missing, failed, Outcome, finished, either}
use arlon.Controllers.Cluster.External.{Cluster, Call, Api}
use arlon.Controllers.Cluster.{reconcile_read, reconcile}
use arlon.Controllers.{requeued}
use arlon.Go.Exec.{continue}
use arlon.Controllers.Cluster.Endings.{
  Ending, IsRecord, Run, started, IsSettled, told, reconcile_cluster-ends,
}

module _ (A : Api) where
  open A use {World}

  reconcile_read-ends :
      (w : World) (Q : Ending A → Type 0)
      → ((c : Call) (v : World) (o : Outcome)
          → IsRecord A c
          → Run A w v
          → Q (continue (A.perform c v) (λ _. pure o)))
      → ((o : Outcome) (v : World) → o ≢ finished → Q (ok o, v))
      → (r : Reply Cluster) → (r ≡ missing → Q (ok finished, w))
      → ((cl : Cluster) (w' : World) → r ≡ present cl → IsSettled A cl w w' → Q (ok finished, w'))
      → Q (reconcile_read A r w)
  unfolding reconcile_read either
  reconcile_read-ends w Q recorded again missing gone rest = gone refl
  reconcile_read-ends w Q recorded again (failed e) gone rest =
      again requeued w (λ e. absurd (ground arith))
  reconcile_read-ends w Q recorded again (present cl) gone rest =
      elim (Result-cases (A.new_patch_helper cl w)) [
        | inr (_, e) ↦ rw (e) (again requeued w (λ e. absurd (ground arith)))
        | inl (_, e) ↦ rw (e) (elim (Result-cases (A.new_application_client w)) [
          | inr (_, e) ↦ rw (e) (told A w Q recorded again cl _ _ _ w started)
          | inl (_, e) ↦ rw (e) (
              reconcile_cluster-ends A w Q recorded again cl w started
                (λ w' settled. rest cl w' refl settled))
        ])
      ]

  -- The reconciler fails only with the error of a write of the cluster's own object, and this write
  -- was the last thing that it did.
  pub reconcile_fails :
      (w w' : World) (e : String)
      → reconcile A w ≡ (err e, w')
      → (c : Call) × ((v : World) × IsRecord A c × (A.perform c v ≡ (err e, w')))
  unfolding reconcile
  reconcile_fails w w' e =
      reconcile_read-ends w
        (λ r.
          r ≡ (err e, w')
          → (c : Call) × ((v : World) × IsRecord A c × (A.perform c v ≡ (err e, w'))))
        (λ c v o record_ run h. (c, (v, record_, continue-pure_err (A.perform c v) o h)))
        (λ o v other h. absurd (ground arith)) (A.get_cluster w) (λ gone h. absurd (ground arith))
        (λ cl u here settled h. absurd (ground arith))
