-- ===== src/Clusters/Tests.antt =====
-- Paths, secrets and an update of one cluster, whose API holds one application.
use arlon.Prelude.{
  List, sym, ap, ◌∙◌, arith, inl, inr, Bool-cases, ==-refl, ◌&&◌, not, if◌then◌else◌, ◌==◌, ◌≡◌,
  refl, true, false, none, some, String, [], ◌∷◌, string_eq,
}
use arlon.Go.Exec.{Result, ok, err}
use arlon.Go.Map.{lookup, read, or_empty, insert, erase}
use arlon.Go.Path.{join_parts}
use arlon.Go.Strings.{split}
use arlon.Argo.{Application}
use arlon.ClusterApps.{construct_root_app, gen1_params, enable_cluster_autoscaler, key_params}
use arlon.ClusterSpec.{ConfigMap, subchart_name, from_config_map, subchart_name_from_cluster_spec}
use arlon.ClusterSpec.Values.{valid_api_provider, valid_cloud_provider_and_cluster_type}
use arlon.Go.Strconv.{atoi, scan, digit, parse_bool}
use arlon.Git.{find_creds, get_repo_creds_from_argocd}
use arlon.Profiles.{Profile}
use arlon.Clusters.External.{failed, found, ClusterSecret, Api}
use arlon.Clusters.Paths.{
  decompose_path, decompose_path-mgmt_path_from_base_path, mgmt_path_from_base_path, last_two,
}
use mathlib.Core.Path.{subst}
use arlon.Clusters.{external_selector, list, gen2_clusters, find_secret, get}
use arlon.Clusters.Managed.{
  profile_app_name, construct_profile_app, managed, released, unlabelled_secret, secret_to_manage,
  patch_or_undo, manage_external, secret_to_release, unmanage_external,
}
use arlon.Clusters.Release.{IsLawful, HasOneSecret, Restores, manage_external-unmanage_external}
use arlon.Clusters.Changes.{
  or_annotation, same_subchart, new_root, root_to_update, write_update, update,
}
use arlon.Clusters.Updates.{Preserves, update-Preserves}

decompose_path-mgmt_path_from_base_path_example :
    decompose_path (mgmt_path_from_base_path (join_parts ("git" ∷ "clusters" ∷ [])) "c1")
    ≡ ok (join_parts ("git" ∷ "clusters" ∷ []), "c1")
unfolding string_eq
decompose_path-mgmt_path_from_base_path_example =
    decompose_path-mgmt_path_from_base_path "git" ("clusters" ∷ []) "c1"
      ((refl, refl, refl, refl), ((refl, refl, refl, refl), tt)) (refl, refl, refl, refl)

abbrev secret : ClusterSecret
secret = record {
  name = "cluster-c1";
  cluster = "c1";
  labels = some (("argocd.argoproj.io/secret-type", "cluster") ∷ []);
  annotations = some (("owner", "team") ∷ []);
}

-- The world is the one secret; there are no applications.
abbrev secrets_api : Api
secrets_api = record {
  World = ClusterSecret;
  kube_client = λ w. ok tt;
  app_client = λ w. ok tt;
  cluster_client = λ w. ok tt;
  runtime_client = λ w. ok tt;
  get_app = λ name w. failed none "not found";
  list_apps = λ selector w. ok [];
  create_app = λ app w. (ok tt, w);
  update_app = λ app w. (ok tt, w);
  delete_app = λ name w. (ok tt, w);
  get_cluster = λ name w. ok tt;
  list_secrets = λ selector w. ok (
      if selector == external_selector
        && not (read (or_empty w.labels) "arlon.io/cluster-type" == "external")
      then []
      else w ∷ []);
  get_secret = λ name w. if name == w.name then ok w else err "not found";
  patch_secret = λ secr w. (ok tt, secr);
  get_config_map = λ name w. err "not found";
  get_profile = λ name w. err "not found";
  get_bundles = λ names w. ok [];
  repo_secrets = λ w. ok [];
  deploy_to_git = λ creds bundles cluster url branch base prof w. (ok tt, w);
  delete_overrides = λ creds url revision path w. (ok tt, w);
}

secrets_api_IsLawful : IsLawful secrets_api "foreground" "argocd"
secrets_api_IsLawful = record {
  patched = λ secr w w' h.
      subst (λ v. secrets_api.get_secret secr.name v ≡ ok secr)
        (ap (λ (r : Result (Unit {0}) × ClusterSecret). r.1) h) (rw (==-refl secr.name) refl);
}

name_read :
    (n : String) (w s : ClusterSecret)
    → (if n == w.name then ok w else err "not found") ≡ ok s
    → n ≡ w.name
name_read n w s h = elim (Bool-cases (n == w.name)) [
  | inl e ↦ ground (arith, e)
  | inr e ↦ absurd (let k = rw (e) at h in ground (arith, k))
]

one_secret : (w : ClusterSecret) → HasOneSecret secrets_api "foreground" "argocd" "c1" w
one_secret w m n s t h k e f = name_read m w s h ∙ sym (name_read n w t k)

abbrev dynamic : Profile
dynamic = record {
  name = "dev";
  description = "";
  tags = [];
  bundles = [];
  overrides = [];
  repo_url = "https://git";
  repo_path = "profiles/dev";
  repo_revision = "main";
}

abbrev managed_secret : ClusterSecret
managed_secret = record secret {
  labels =
      some (
        ("argocd.argoproj.io/secret-type", "cluster") ∷ ("arlon.io/cluster-type", "external") ∷ []);
  annotations = some (
      ("owner", "team")
      ∷ ("arlon.io/profile", "dev")
      ∷ ("arlon.io/profile-app", "c1-profile-dev")
      ∷ []);
}

managing :
    manage_external secrets_api "foreground" "argocd" "c1" dynamic secret ≡ (ok tt, managed_secret)
unfolding manage_external secret_to_manage unlabelled_secret patch_or_undo managed list
    gen2_clusters find_secret lookup insert string_eq
managing = refl

releasing :
    unmanage_external secrets_api "foreground" "argocd" "c1" managed_secret ≡ (ok tt, secret)
unfolding unmanage_external secret_to_release released get find_secret lookup erase string_eq
releasing = refl

-- Without annotations the assignment panics, with the application created.
panicking :
    manage_external secrets_api "foreground" "argocd" "c1" dynamic
      (record secret { annotations = none })
    ≡ (err "panic: assignment to entry in nil map", record secret { annotations = none })
unfolding manage_external secret_to_manage unlabelled_secret patch_or_undo managed list
    gen2_clusters find_secret lookup insert string_eq
panicking = refl

manage_external-unmanage_external_example :
    (before after : ClusterSecret) × ((secrets : List ClusterSecret) × ((u x : ClusterSecret)
        × (secrets_api.list_secrets "argocd.argoproj.io/secret-type=cluster" secret ≡ ok secrets)
        × (find_secret "c1" secrets ≡ some before)
        × (secrets_api.get_secret before.name secret ≡ ok after)
        × Restores before after
        × (secrets_api.create_app
              (construct_profile_app "foreground"
                (profile_app_name "c1" dynamic)
                "argocd"
                "c1"
                dynamic)
              secret
            ≡ (ok tt, u))
        × (secrets_api.delete_app (profile_app_name "c1" dynamic) managed_secret ≡ (ok tt, x))))
manage_external-unmanage_external_example =
    manage_external-unmanage_external secrets_api "foreground" "argocd" secrets_api_IsLawful "c1"
      dynamic secret managed_secret secret (one_secret managed_secret) managing releasing

abbrev cluster_spec : ConfigMap
cluster_spec = record {
  name = "small";
  labels = [];
  contents =
      ("apiProvider", "capi")
      ∷ ("cloudProvider", "aws")
      ∷ ("type", "eks")
      ∷ ("nodeCount", "2")
      ∷ [];
}

abbrev old_root : Application
old_root = record {
  name = "c1";
  namespace = "argocd";
  labels = ("arlon-type", "cluster") ∷ [];
  annotations = some (("arlon.io/clusterspec", "small") ∷ ("arlon.io/profile", "dev") ∷ []);
  finalizers = [];
  deleting = false;
  source = record {
    repo_url = "https://git";
    path = "clusters/c1/mgmt";
    target_revision = "main";
    helm = some (record { name = "tags.capi-aws-eks"; value = "true" } ∷ []);
    kustomize = none;
  };
  server = "";
  destination_namespace = "default";
  sync_policy = none;
  ignore_differences = [];
}

abbrev dev : Profile
dev = record {
  name = "dev";
  description = "";
  tags = [];
  bundles = [];
  overrides = [];
  repo_url = "";
  repo_path = "";
  repo_revision = "";
}

-- The world is the application.
abbrev api : Api
api = record {
  World = Application;
  kube_client = λ w. ok tt;
  app_client = λ w. ok tt;
  cluster_client = λ w. ok tt;
  runtime_client = λ w. ok tt;
  get_app = λ name w. found w;
  list_apps = λ selector w. ok (w ∷ []);
  create_app = λ app w. (ok tt, app);
  update_app = λ app w. (ok tt, app);
  delete_app = λ name w. (ok tt, w);
  get_cluster = λ name w. err "not found";
  list_secrets = λ selector w. ok [];
  get_secret = λ name w. err "not found";
  patch_secret = λ secr w. (ok tt, w);
  get_config_map = λ name w. ok cluster_spec;
  get_profile = λ name w. ok dev;
  get_bundles = λ names w. ok [];
  repo_secrets =
      λ w. ok ((("url", "https://git") ∷ ("username", "user") ∷ ("password", "pass") ∷ []) ∷ []);
  deploy_to_git = λ creds bundles cluster url branch base prof w. (ok tt, w);
  delete_overrides = λ creds url revision path w. (ok tt, w);
}

root_of : Result Application → Application
root_of (ok app) = app
root_of (err e) = old_root

next_root : Application
unfolding root_of
next_root = root_of (update api "foreground" "argocd" "c1" "" "" true "https://mgmt" old_root).0

updated :
    update api "foreground" "argocd" "c1" "" "" true "https://mgmt" old_root
    ≡ (ok next_root, next_root)
unfolding next_root root_of update write_update root_to_update new_root same_subchart subchart_name
    from_config_map subchart_name_from_cluster_spec valid_api_provider
    valid_cloud_provider_and_cluster_type construct_root_app gen1_params enable_cluster_autoscaler
    key_params decompose_path last_two split lookup string_eq atoi scan digit parse_bool find_creds
    get_repo_creds_from_argocd join_parts
updated = refl

update-Preserves_example :
    (old : Application) × ((spec base : String) × ((cm : ConfigMap) × (found old_root ≡ found old)
        × (or_annotation old "arlon.io/clusterspec" "clusterspec" "" ≡ ok spec)
        × (ok cluster_spec ≡ ok cm)
        × Preserves "c1" base cm old next_root))
update-Preserves_example =
    update-Preserves api "foreground" "argocd" "c1" "" "" true "https://mgmt" old_root next_root
      next_root updated
