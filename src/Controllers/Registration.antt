-- ===== src/Controllers/Registration.antt =====
-- controllers/clusterregistration_controller.go: a cluster whose kubeconfig stands in a secret is
-- added to Argo CD, and removed when the registration goes.
pub mod External
pub mod Laws
mod Tests
use arlon.Prelude.{
  String, ◌<>◌, Bool, true, false, not, ◌||◌, Option, none, some, ◌==◌, string_eq, if◌then◌else◌,
}
use arlon.Go.Exec.{Result, ok, err, Exec, pure, ◌>>◌, ◌>>=◌, reads}
use arlon.Go.Map.{Map, lookup}
use arlon.Controllers.{
  Reply, present, missing, failed, Outcome, finished, requeued, retry_delay, attempt,
}
use External.{Registration, Query, Api}

abbrev pub registration_finalizer : String
registration_finalizer = "clusterregistration.core.arlon.io"

-- The name that the cluster gets in Argo CD.
abbrev pub registered_name : Registration → String
registered_name cr = if cr.cluster_name == "" then cr.name else cr.cluster_name

module _ (A : Api) where
  open A use {World}

  abbrev pub update_state : Registration → String → String → Outcome → Exec World Outcome
  update_state cr state msg outcome =
      A.update_status (record cr { state = state; message = msg }) >> pure outcome

  unfoldable pub remove_finalizer : Registration → Exec World Outcome
  remove_finalizer cr =
      A.patch cr
        (record cr { finalizers = A.remove_finalizer cr.finalizers registration_finalizer })
      >> pure finished

  unfoldable pub reconcile_delete : Registration → Exec World Outcome
  reconcile_delete cr =
      attempt (reads (A.get_cluster (record { name = cr.cluster_name; server = "" })))
        (λ _. remove_finalizer cr)
        (λ server.
          attempt (A.delete_cluster (record { name = cr.cluster_name; server = server }))
            (λ _. pure retry_delay) (λ _. remove_finalizer cr))

  unfoldable pub add_finalizer : Registration → Exec World Outcome
  add_finalizer cr =
      A.patch cr (record cr { finalizers = A.add_finalizer cr.finalizers registration_finalizer })
      >> pure finished

  unfoldable pub add_cluster : Registration → A.Config → A.Clientset → Exec World Outcome
  add_cluster cr conf clientset =
      attempt (A.install_manager_rbac clientset)
        (λ e.
          update_state cr "retrying"
            ("failed to install service account in destination cluster: '"
              <> (e <> "' ... retrying in 10 secs"))
            retry_delay)
        (λ manager_bearer_token.
          attempt (A.create_cluster (registered_name cr) conf manager_bearer_token)
            (λ e.
              update_state cr "retrying"
                ("failed to add cluster to argocd: '" <> (e <> "' ... retrying in 10 secs"))
                retry_delay)
            (λ _. update_state cr "complete" "successfully added cluster to argocd" finished))

  unfoldable pub read_kubeconfig : Registration → Option A.Bytes → Exec World Outcome
  read_kubeconfig cr none =
      update_state cr "error"
        ("secret subkey " <> (cr.kubeconfig_secret_key_name <> " does not exist")) finished
  read_kubeconfig cr (some data_) =
      attempt (reads (λ _. A.rest_config data_))
        (λ e. update_state cr "error" ("failed to read kubeconfig from secret: " <> e) finished)
        (λ conf.
          attempt (reads (λ _. A.new_clientset conf))
            (λ e. update_state cr "error" ("failed to get clientset from config: " <> e) finished)
            (λ clientset. add_cluster cr conf clientset))

  unfoldable pub read_secret : Registration → Reply (Map A.Bytes) → Exec World Outcome
  read_secret cr missing =
      update_state cr "retrying"
        ("kubeconfig secret "
          <> (cr.kubeconfig_secret_name <> " does not exist yet, retrying in 10 seconds"))
        retry_delay
  read_secret cr (failed e) = update_state cr "error" ("failed to read secret: " <> e) finished
  read_secret cr (present secret) = read_kubeconfig cr (lookup cr.kubeconfig_secret_key_name secret)

  unfoldable pub register : Registration → Exec World Outcome
  register cr =
      attempt (reads (A.get_cluster (record { name = cr.cluster_name; server = "" })))
        (λ _ w. read_secret cr (A.get_secret cr.kubeconfig_secret_name w) w)
        (λ _.
          update_state cr "complete" ("cluster " <> (cr.cluster_name <> " already exists -- ok"))
            finished)

  unfoldable pub reconcile_registration : Registration → Exec World Outcome
  reconcile_registration cr =
      if cr.deleting
      then reconcile_delete cr
      else if cr.state == "complete"
      then pure finished
      else if cr.state == "error"
      then pure finished
      else if cr.kubeconfig_secret_name == "" || cr.kubeconfig_secret_key_name == ""
      then update_state cr "error" "clusterregistration has an invalid spec" finished
      else if not (A.contains_finalizer cr.finalizers registration_finalizer)
      then add_finalizer cr
      else register cr

  unfoldable pub reconcile_read : Reply Registration → Exec World Outcome
  reconcile_read missing = pure finished
  reconcile_read (failed e) = pure requeued
  reconcile_read (present cr) =
      attempt (reads (A.new_patch_helper cr)) (λ _. pure requeued) (λ _. reconcile_registration cr)

  unfoldable pub reconcile : Exec World Outcome
  reconcile w = reconcile_read (A.get_registration w) w
