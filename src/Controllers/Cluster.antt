-- ===== src/Controllers/Cluster.antt =====
-- controllers/cluster_controller.go: one call of the reconciler brings a cluster one step on. It
-- writes down the step in the cluster's status, which wakes the reconciler again.
pub mod External
pub mod Permits
pub mod Endings
pub mod Rest
mod Tests
use arlon.Prelude.{
  ℕ, String, ◌<>◌, Bool, true, false, not, ◌&&◌, ◌||◌, Option, none, some, eqb, ◌==◌, string_eq,
  if◌then◌else◌,
}
use arlon.Go.Exec.{Result, ok, err, Exec, pure, ◌>>◌, ◌>>=◌, reads}
use arlon.Go.Map.{StringMap, insert, read, or_empty}
use arlon.Go.Strconv.{format_uint}
use arlon.Argo.{Application}
use arlon.Controllers.{
  Reply, present, missing, failed, Outcome, finished, requeued, retry_delay, attempt,
}
use arlon.AppProfile.{profiles_annotation_key}
use External.{
  RepoSpec, OverrideSpec, Cluster, AppReply, found, coded, uncoded, Call, set_status, patch_cluster,
  create_patch_dir, create_arlon_app, create_cluster_app, update_app, delete_app,
  delete_overrides_dir, Api,
}

abbrev pub default_arlon_chart : RepoSpec
default_arlon_chart = record {
  url = "https://github.com/arlonproj/arlon.git";
  path = "pkg/cluster/manifests";
  revision = "v0.10.0";
}

abbrev pub cluster_finalizer : String
cluster_finalizer = "cluster.core.arlon.io"

-- `grpccodes.NotFound`
abbrev pub not_found : ℕ
not_found = 5

abbrev pub arlon_app_name : String → String
arlon_app_name clust_name = clust_name <> "-arlon"

abbrev pub is_some {ℓ} : {A : Type ℓ} → Option A → Bool
is_some none = false
is_some (some a) = true

abbrev pub or_default : Option RepoSpec → RepoSpec
or_default none = default_arlon_chart
or_default (some chart) = chart

abbrev pub host_of : Option String → String
host_of none = ""
host_of (some host) = host

-- Where the cluster comes from: the override, when there is one.
abbrev pub source_of : Cluster → RepoSpec
source_of cl = elim cl.override [ none ↦ cl.cluster_template | some ovr ↦ ovr.repo ]

-- The cluster app with the cluster's profiles, if it has other ones.
unfoldable pub sync_annotation : Cluster → Application → Option Application
sync_annotation cl app = elim cl.annotations [
  | some annotations ↦
      let wanted = read annotations profiles_annotation_key in
      if not (is_some app.annotations)
        || not (wanted == read (or_empty app.annotations) profiles_annotation_key)
      then some (record app {
        annotations = some (insert profiles_annotation_key wanted (or_empty app.annotations));
      })
      else none
  | none ↦ if is_some app.annotations then some (record app { annotations = none }) else none
]

module _ (A : Api) where
  open A use {World}

  abbrev pub update_state : Cluster → String → String → Outcome → Exec World Outcome
  update_state cl state msg outcome =
      A.perform (set_status (record cl { state = state; message = msg })) >> pure outcome

  abbrev pub retrying : Cluster → String → Exec World Outcome
  retrying cl msg = update_state cl "retrying" msg retry_delay

  -- The two ways on from a look for an application, with the errors that end the call.
  abbrev pub look :
      String
      → Cluster
      → AppReply
      → (Application → Exec World Outcome)
      → Exec World Outcome
      → Exec World Outcome
  look state cl (found app) there gone = there app
  look state cl uncoded there gone =
      update_state cl state "failed to get grpc status from argocd API" retry_delay
  look state cl (coded code) there gone =
      if not (eqb code not_found)
      then update_state cl state ("unexpected grpc status: " <> format_uint code) retry_delay
      else gone

  abbrev pub look_up :
      String
      → Cluster
      → String
      → (Application → Exec World Outcome)
      → Exec World Outcome
      → Exec World Outcome
  look_up state cl name there gone w = look state cl (A.get_app name w) there gone w

  unfoldable pub delete_override : Cluster → Application → Exec World Outcome
  delete_override cl app =
      attempt (reads A.new_kube_client)
        (λ e.
          update_state cl "error-deleting-override" ("failed to get kubeclient: " <> e) retry_delay)
        (λ _.
          attempt (A.perform (delete_overrides_dir app))
            (λ e.
              update_state cl "error-deleting-override"
                ("failed to delete overrides directory: " <> e) retry_delay)
            (λ _.
              update_state (record cl { override_successful = false }) "override-deleted"
                "override deleted successfully" finished))

  unfoldable pub delete_cluster_app : Cluster → Application → Exec World Outcome
  delete_cluster_app cl app =
      if app.deleting
      then pure retry_delay
      else attempt (A.perform (delete_app cl.name))
          (λ e.
            update_state cl "error-deleting-cluster-app" ("failed to delete cluster app: " <> e)
              retry_delay)
          (λ _. update_state cl "deleting-cluster-app" "deleting cluster app" finished)

  unfoldable pub delete_arlon_app : Cluster → Application → Exec World Outcome
  delete_arlon_app cl app =
      if app.deleting
      then pure retry_delay
      else attempt (A.perform (delete_app (arlon_app_name cl.name)))
          (λ e.
            update_state cl "error-deleting-arlon-app" ("failed to delete arlon app: " <> e)
              retry_delay)
          (λ _. update_state cl "deleting-arlon-app" "deleting arlon app" finished)

  unfoldable pub remove_finalizer : Cluster → Exec World Outcome
  remove_finalizer cl =
      A.perform (
        patch_cluster cl
          (record cl { finalizers = A.remove_finalizer cl.finalizers cluster_finalizer }))
      >> pure finished

  unfoldable pub reconcile_delete : Cluster → Exec World Outcome
  reconcile_delete cl =
      look_up "delete-retrying" cl cl.name
        (λ app.
          if is_some cl.override && cl.override_successful
          then delete_override cl app
          else delete_cluster_app cl app)
        (look_up "delete-retrying" cl (arlon_app_name cl.name) (delete_arlon_app cl)
          (remove_finalizer cl))

  unfoldable pub add_finalizer : Cluster → Exec World Outcome
  add_finalizer cl =
      A.perform (
        patch_cluster cl
          (record cl { finalizers = A.add_finalizer cl.finalizers cluster_finalizer }))
      >> pure finished

  unfoldable pub validate_template : Cluster → Exec World Outcome
  validate_template cl =
      attempt (reads (A.get_repo_creds cl.cluster_template.url))
        (λ e. retrying cl ("failed to get repo creds: " <> e))
        (λ creds.
          attempt (reads (A.validate_git_dir creds cl.cluster_template))
            (λ e. retrying cl ("failed to validate cluster template: " <> e))
            (λ inner_cluster_name.
              update_state (record cl { inner_cluster_name = inner_cluster_name })
                "template-validated" "cluster template validation successful" finished))

  unfoldable pub create_override : Cluster → OverrideSpec → Exec World Outcome
  create_override cl ovr =
      attempt (A.perform (create_patch_dir cl.name ovr cl.cluster_template))
        (λ e. retrying cl ("failed to create override patch in git: " <> e))
        (λ _.
          update_state (record cl { override_successful = true }) "override-created"
            "override patch creation successful" finished)

  unfoldable pub settle : Cluster → Exec World Outcome
  settle cl =
      if not (cl.state == "created")
      then update_state cl "created" "cluster app already exists but state needs updating -- ok"
          finished
      else pure finished

  unfoldable pub keep_in_sync : Cluster → Application → Exec World Outcome
  keep_in_sync cl app = elim (sync_annotation cl app) [
    | none ↦ settle cl
    | some app' ↦
        attempt (A.perform (update_app app'))
          (λ e. retrying cl ("failed to update cluster application: " <> e)) (λ _. settle cl)
  ]

  unfoldable pub ensure_cluster_app : Cluster → Exec World Outcome
  ensure_cluster_app cl = look_up "retrying" cl cl.name (keep_in_sync cl) (
      attempt
        (A.perform
          (create_cluster_app cl.name cl.inner_cluster_name (source_of cl) (is_some cl.override)))
        (λ e. retrying cl ("failed to create cluster application: " <> e))
        (λ _. update_state cl "created" "cluster app creation successful" finished))

  unfoldable pub ensure_apps : Cluster → Exec World Outcome
  ensure_apps cl =
      look_up "retrying" cl (arlon_app_name cl.name) (λ _. ensure_cluster_app cl)
        (attempt
          (A.perform (
            create_arlon_app cl.name cl.inner_cluster_name (or_default cl.arlon_helm_chart)
              (host_of cl.autoscaler) (is_some cl.autoscaler)))
          (λ e. retrying cl ("failed to create arlon application: " <> e))
          (λ _. ensure_cluster_app cl))

  unfoldable pub ensure_override : Cluster → Exec World Outcome
  ensure_override cl = elim cl.override [
    | none ↦ ensure_apps cl
    | some ovr ↦ if not cl.override_successful then create_override cl ovr else ensure_apps cl
  ]

  unfoldable pub reconcile_cluster : Cluster → Exec World Outcome
  reconcile_cluster cl =
      if cl.deleting
      then reconcile_delete cl
      else if not (A.contains_finalizer cl.finalizers cluster_finalizer)
      then add_finalizer cl
      else if cl.inner_cluster_name == ""
      then validate_template cl
      else ensure_override cl

  unfoldable pub reconcile_read : Reply Cluster → Exec World Outcome
  reconcile_read missing = pure finished
  reconcile_read (failed e) = pure requeued
  reconcile_read (present cl) =
      attempt (reads (A.new_patch_helper cl)) (λ _. pure requeued)
        (λ _.
          attempt (reads A.new_application_client)
            (λ e. retrying cl ("failed to get argocd application client: " <> e))
            (λ _. reconcile_cluster cl))

  unfoldable pub reconcile : Exec World Outcome
  reconcile w = reconcile_read (A.get_cluster w) w
