-- ===== src/Controllers/Cluster/Tests.antt =====
-- Runs of the cluster controller over resources in memory, and the theorems at concrete data.
use arlon.Prelude.{
  String, ◌<>◌, ◌≡◌, refl, sym, ◌∙◌, ap, inl, inr, Bool, true, false, none, List, [], ◌∷◌, ◌++◌,
  arith, elem, ◌==◌, string_eq, if◌then◌else◌,
}
use arlon.Go.Exec.{ok, err, Exec}
use arlon.Go.Strconv.{format_uint}
use arlon.Argo.{Application}
use arlon.Controllers.{Reply, present, missing, failed, finished, either}
use arlon.Controllers.Cluster.External.{
  RepoSpec, Cluster, AppReply, found, coded, Call, set_status, patch_cluster, create_patch_dir,
  create_arlon_app, create_cluster_app, update_app, delete_app, delete_overrides_dir, Api,
}
use arlon.Controllers.Cluster.{
  cluster_finalizer, sync_annotation, delete_cluster_app, delete_arlon_app, remove_finalizer,
  reconcile_delete, add_finalizer, validate_template, settle, keep_in_sync, ensure_cluster_app,
  ensure_apps, ensure_override, reconcile_cluster, reconcile_read, reconcile,
}
use arlon.Controllers.Cluster.Permits.{Permits, reconcile-Permits}
use arlon.Controllers.Cluster.Rest.{reconcile_fails}
use arlon.Controllers.Cluster.Endings.{IsRecord}

record Store : Type 0 where
  cluster : Reply Cluster
  apps : List Application

app_named : String → Application
app_named name = record {
  name = name;
  namespace = "argocd";
  labels = [];
  annotations = none;
  finalizers = [];
  deleting = false;
  source = record { repo_url = ""; path = ""; target_revision = ""; helm = none; kustomize = none };
  server = "";
  destination_namespace = "";
  sync_policy = none;
  ignore_differences = [];
}

find : String → List Application → AppReply
find name [] = coded 5
find name (a ∷ apps) = if a.name == name then found a else find name apps

without : String → List Application → List Application
without name [] = []
without name (a ∷ apps) = let rest = without name apps in if a.name == name then rest else a ∷ rest

perform : Call → Exec Store (Unit {0})
unfolding app_named without
perform (set_status c) w = (ok tt, record w { cluster = present c })
perform (patch_cluster before after) w = (ok tt, record w { cluster = present after })
perform (create_patch_dir name ovr template) w = (ok tt, w)
perform (create_arlon_app name inner chart host scale) w =
    (ok tt, record w { apps = app_named (name <> "-arlon") ∷ w.apps })
perform (create_cluster_app name inner source overridden) w =
    (ok tt, record w { apps = app_named name ∷ w.apps })
perform (update_app a) w = (ok tt, record w { apps = a ∷ without a.name w.apps })
perform (delete_app name) w = (ok tt, record w { apps = without name w.apps })
perform (delete_overrides_dir a) w = (ok tt, w)

abbrev api : Api
api = record {
  World = Store;
  Creds = Unit;
  get_cluster = λ w. w.cluster;
  new_patch_helper = λ _ _. ok tt;
  new_application_client = λ _. ok tt;
  new_kube_client = λ _. ok tt;
  get_repo_creds = λ _ _. ok tt;
  validate_git_dir = λ _ _ _. ok "workload";
  get_app = λ name w. find name w.apps;
  perform = perform;
  contains_finalizer = λ fs f. elem f fs;
  add_finalizer = λ fs f. if elem f fs then fs else fs ++ f ∷ [];
  remove_finalizer = λ fs f. [];
}

abbrev template : RepoSpec
template = record { url = "https://git"; path = "clusters"; revision = "main" }

abbrev at_stage : String → String → String → List String → Cluster
at_stage state msg inner finalizers = record {
  name = "c1";
  annotations = none;
  finalizers = finalizers;
  deleting = false;
  cluster_template = template;
  override = none;
  autoscaler = none;
  arlon_helm_chart = none;
  state = state;
  inner_cluster_name = inner;
  override_successful = false;
  message = msg;
}

abbrev fresh : Store
fresh = record { cluster = present (at_stage "" "" "" []); apps = [] }

abbrev held : Store
held = record { cluster = present (at_stage "" "" "" (cluster_finalizer ∷ [])); apps = [] }

abbrev checked : Store
checked = record {
  cluster = present (
      at_stage "template-validated" "cluster template validation successful" "workload"
        (cluster_finalizer ∷ []));
  apps = [];
}

abbrev created : Store
created = record {
  cluster =
      present
        (at_stage "created" "cluster app creation successful" "workload" (cluster_finalizer ∷ []));
  apps = app_named "c1" ∷ app_named "c1-arlon" ∷ [];
}

abbrev deleting : Store
deleting = record {
  cluster =
      present
        (record (at_stage "created" "" "workload" (cluster_finalizer ∷ [])) { deleting = true });
  apps = [];
}

fresh_step : reconcile api fresh ≡ (ok finished, held)
unfolding reconcile reconcile_read either reconcile_cluster add_finalizer validate_template
    ensure_override ensure_apps ensure_cluster_app keep_in_sync settle sync_annotation format_uint
    perform find without app_named string_eq reconcile_delete delete_cluster_app delete_arlon_app
    remove_finalizer
fresh_step = refl

held_step : reconcile api held ≡ (ok finished, checked)
unfolding reconcile reconcile_read either reconcile_cluster add_finalizer validate_template
    ensure_override ensure_apps ensure_cluster_app keep_in_sync settle sync_annotation format_uint
    perform find without app_named string_eq reconcile_delete delete_cluster_app delete_arlon_app
    remove_finalizer
held_step = refl

checked_step : reconcile api checked ≡ (ok finished, created)
unfolding reconcile reconcile_read either reconcile_cluster add_finalizer validate_template
    ensure_override ensure_apps ensure_cluster_app keep_in_sync settle sync_annotation format_uint
    perform find without app_named string_eq reconcile_delete delete_cluster_app delete_arlon_app
    remove_finalizer
checked_step = refl

-- An API where the cluster's object cannot be patched.
abbrev failing_api : Api
failing_api = record api { perform = λ _ w. (err "conflict", w) }

failing_step : reconcile failing_api fresh ≡ (err "conflict", fresh)
unfolding reconcile reconcile_read either reconcile_cluster add_finalizer string_eq
failing_step = refl

reconcile_fails_example :
    (c : Call) × ((v : Store) × IsRecord failing_api c
      × (failing_api.perform c v ≡ (err "conflict", fresh)))
reconcile_fails_example = reconcile_fails failing_api fresh fresh "conflict" failing_step

finalizers_of : Reply Cluster → List String
finalizers_of (present c) = c.finalizers
finalizers_of missing = []
finalizers_of (failed e) = []

going : Reply Cluster → Bool
going (present c) = c.deleting
going missing = false
going (failed e) = false

-- The finalizer of a live cluster stays.
Holds : Store → Type 0
unfolding finalizers_of
Holds w = finalizers_of w.cluster ≡ cluster_finalizer ∷ []

keeps_finalizer :
    (cl : Cluster)
    → api.get_cluster held ≡ present cl
    → (c : Call) (v : Store) → Permits api cl c v
    → Holds v
    → Holds (api.perform c v).1
unfolding Holds finalizers_of perform going string_eq
keeps_finalizer cl e (set_status c) v (_, f) h = f ∙ sym (ap finalizers_of e)
keeps_finalizer cl e (patch_cluster before after) v (_, inl (_, f)) h =
    ap (λ (c : Cluster). c.finalizers) f
    ∙ ap (λ fs. api.add_finalizer fs cluster_finalizer) (sym (ap finalizers_of e))
keeps_finalizer cl e (patch_cluster before after) v (_, inr (d, _, _, _)) h =
    absurd (let same = ap going e in ground (arith, same, d))
keeps_finalizer cl e (create_patch_dir name ovr t) v p h = h
keeps_finalizer cl e (create_arlon_app name inner chart host scale) v p h = h
keeps_finalizer cl e (create_cluster_app name inner source overridden) v p h = h
keeps_finalizer cl e (update_app a) v p h = h
keeps_finalizer cl e (delete_app name) v p h = h
keeps_finalizer cl e (delete_overrides_dir a) v p h = h

held_Holds : Holds held
unfolding Holds
held_Holds = refl

reconcile-Permits_example : Holds (reconcile api held).1
reconcile-Permits_example = reconcile-Permits api Holds held keeps_finalizer held_Holds
