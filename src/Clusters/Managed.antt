-- ===== src/Clusters/Managed.antt =====
-- pkg/cluster/external.go and profile_app.go: external clusters, which Arlon did not create, and
-- the application of a profile.
use arlon.Prelude.{
  String, ◌<>◌, Bool, true, false, not, Option, none, some, List, [], ◌∷◌, any, ◌==◌, string_eq,
  if◌then◌else◌,
}
use arlon.Go.Exec.{
  nil_map, nil_pointer, Result, ok, err, Exec, pure, ◌>>=◌, ◌>>◌, ◌>>=ᵣ◌, wrap, reads, wrapped,
}
use arlon.Go.Map.{or_empty, StringMap, insert, erase, read}
use arlon.Go.Path.{join}
use arlon.Argo.{Application}
use arlon.Profiles.{Profile}
use arlon.Clusters.{
  Cluster, cluster_type_label_key, argo_cluster_secret_type_label, find_secret, get, list,
}
use arlon.Clusters.External.{ClusterSecret, Api}

abbrev pub profile_key : String
profile_key = "arlon.io/profile"

abbrev pub profile_app_key : String
profile_app_key = "arlon.io/profile-app"

abbrev pub profile_app_name : String → Profile → String
profile_app_name cluster_name prof = cluster_name <> ("-profile-" <> prof.name)

-- `finalizer` is a constant of Argo CD.
unfoldable pub construct_profile_app :
    (finalizer app_name argocd_ns cluster_name : String) → Profile → Application
construct_profile_app finalizer app_name argocd_ns cluster_name prof = record {
  name = app_name;
  namespace = argocd_ns;
  labels =
      ("managed-by", "arlon")
      ∷ ("arlon-type", "profile-app")
      ∷ ("arlon-cluster", cluster_name)
      ∷ ("arlon-profile", prof.name)
      ∷ [];
  annotations = some ((profile_key, prof.name) ∷ []);
  finalizers = finalizer ∷ [];
  deleting = false;
  source = record {
    repo_url = prof.repo_url;
    path = join prof.repo_path "mgmt";
    target_revision = prof.repo_revision;
    helm = some (
        record { name = "clusterName"; value = cluster_name }
        ∷ record { name = "profileAppName"; value = app_name }
        ∷ []);
    kustomize = none;
  };
  server = "https://kubernetes.default.svc";
  destination_namespace = argocd_ns;
  sync_policy = some (record { automated = some true; sync_options = [] });
  ignore_differences = [];
}

-- `delete(m, k)`, which does nothing on a nil map.
abbrev erased : String → Option StringMap → Option StringMap
erased key none = none
erased key (some m) = some (erase key m)

-- The secret as it is when Arlon manages the cluster: both maps are assigned to, and a nil one
-- panics. Then as it is afterwards.
unfoldable pub managed : String → String → ClusterSecret → Result ClusterSecret
managed profile_name app_name secr = elim secr.labels [
  | none ↦ err nil_map
  | some labels ↦ elim secr.annotations [
    | none ↦ err nil_map
    | some annotations ↦ ok (record secr {
      labels = some (insert cluster_type_label_key "external" labels);
      annotations =
          some (insert profile_app_key app_name (insert profile_key profile_name annotations));
    })
  ]
]

unfoldable pub released : ClusterSecret → ClusterSecret
released secr = record secr {
  labels = erased cluster_type_label_key secr.labels;
  annotations = erased profile_app_key (erased profile_key secr.annotations);
}

module _ (api : Api) (finalizer argocd_ns : String) where
  unfoldable pub create_profile_app :
      (app_name cluster_name : String) → Profile → Bool → Exec api.World Application
  create_profile_app app_name cluster_name prof create_in_argocd =
      let app = construct_profile_app finalizer app_name argocd_ns cluster_name prof in
      if create_in_argocd
      then wrapped "failed to create profile app: " (api.create_app app) >> pure app
      else pure app

  unfoldable pub destroy_each : List Application → Exec api.World (Unit {0})
  destroy_each [] = pure tt
  destroy_each (app ∷ apps) =
      wrapped ("failed to delete related profile app " <> (app.name <> ": "))
        (api.delete_app app.name)
      >> destroy_each apps

  -- The result of a listing that fails is nil, and is used before the error is looked at.
  unfoldable pub destroy_profile_apps : String → Exec api.World (Unit {0})
  destroy_profile_apps cluster_name =
      reads (λ w.
        elim (api.list_apps ("arlon-cluster=" <> (cluster_name <> ",arlon-type=profile-app")) w) [
          | err _ ↦ err nil_pointer
          | ok apps ↦ ok apps
        ])
      >>= destroy_each

  -- The secret of the cluster, which must not have Arlon's label.
  unfoldable pub unlabelled_secret : String → api.World → List ClusterSecret → Result ClusterSecret
  unlabelled_secret cluster_name w secrets = elim (find_secret cluster_name secrets) [
    | none ↦ err "failed to find matching cluster secret"
    | some secr ↦
        if not (read (or_empty secr.labels) cluster_type_label_key == "")
        then err "unexpectedly found arlon label in secret"
        else wrap "failed to get controller runtime client: " (api.runtime_client w) >>=ᵣ λ _.
            ok secr
  ]

  -- What `manage_external` checks; the secret of the cluster comes out.
  unfoldable pub secret_to_manage : String → Profile → api.World → Result ClusterSecret
  unfolding unlabelled_secret
  secret_to_manage cluster_name prof w =
      if prof.repo_url == ""
      then err "the profile is static, only dynamic is supported"
      else wrap "failed to get argocd application client: " (api.app_client w) >>=ᵣ λ _.
          wrap "failed to list existing clusters: " (list api w) >>=ᵣ λ clusters.
          if any (λ (c : Cluster). c.name == cluster_name) clusters
          then err "cluster is already created or managed by arlon"
          else wrap "failed to get argocd cluster client: " (api.cluster_client w) >>=ᵣ λ _.
              elim (api.get_cluster cluster_name w) [
                | err _ ↦ err "cluster is not registered in argocd"
                | ok _ ↦ wrap "failed to get kube client: " (api.kube_client w) >>=ᵣ λ _.
                    wrap "failed to list argo cluster secrets: "
                      (api.list_secrets argo_cluster_secret_type_label w)
                    >>=ᵣ unlabelled_secret cluster_name w
              ]

  -- After a patch that fails the application is deleted again; the message then holds the error of
  -- the deletion, or `nil`, in place of that of the patch.
  unfoldable pub patch_or_undo : String → ClusterSecret → Exec api.World (Unit {0})
  patch_or_undo app_name secr w = elim (api.patch_secret secr w).0 [
    | ok _ ↦ (ok tt, (api.patch_secret secr w).1)
    | err _ ↦
        let undone = api.delete_app app_name (api.patch_secret secr w).1 in
        (
          elim undone.0 [
            | ok _ ↦ err "failed to patch secret: %!s(<nil>)"
            | err e ↦ err ("failed to patch secret: " <> e)
          ],
          undone.1,
        )
  ]

  unfoldable pub manage_external : String → Profile → Exec api.World (Unit {0})
  unfolding patch_or_undo
  manage_external cluster_name prof =
      let app_name = profile_app_name cluster_name prof in
      reads (secret_to_manage cluster_name prof) >>= λ secr.
      wrapped "failed to get create profile app: "
        (api.create_app (construct_profile_app finalizer app_name argocd_ns cluster_name prof))
      >> reads (λ _. managed prof.name app_name secr)
      >>= patch_or_undo app_name

  -- What `unmanage_external` checks; the secret and the name of the profile app come out.
  unfoldable pub secret_to_release : String → api.World → Result (ClusterSecret × String)
  secret_to_release cluster_name w =
      wrap "failed to get argocd application client: " (api.app_client w) >>=ᵣ λ _.
      wrap "failed to get existing cluster: " (get api cluster_name w) >>=ᵣ λ cluster.
      if not cluster.is_external
      then err "cluster is not external"
      else if cluster.secret_name == ""
      then err "cluster is missing secret information"
      else wrap "failed to get kube client: " (api.kube_client w) >>=ᵣ λ _.
          wrap "failed to get argo cluster secret: " (api.get_secret cluster.secret_name w)
          >>=ᵣ λ secr.
              if not (secr.cluster == cluster_name)
              then err "secret data does not match cluster name"
              else if not (read (or_empty secr.labels) cluster_type_label_key == "external")
              then err "secret does not have arlon cluster label"
              else wrap "failed to get controller runtime client: " (api.runtime_client w) >>=ᵣ λ _.
                  if read (or_empty secr.annotations) profile_app_key == ""
                  then err "secret does not contain profile app name annotation"
                  else ok (secr, read (or_empty secr.annotations) profile_app_key)

  unfoldable pub unmanage_external : String → Exec api.World (Unit {0})
  unmanage_external cluster_name = reads (secret_to_release cluster_name) >>= λ found.
      wrapped "failed to delete profile app: " (api.delete_app found.1)
      >> wrapped "failed to patch secret: " (api.patch_secret (released found.0))
