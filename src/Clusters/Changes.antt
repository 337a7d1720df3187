-- ===== src/Clusters/Changes.antt =====
-- pkg/cluster/create.go, update.go, delete.go, ngupdate.go and set_appprofiles.go.
use arlon.Prelude.{
  ℕ, String, ◌<>◌, Bool, true, false, not, ◌&&◌, ◌||◌, Option, none, some, List, [], ◌∷◌, any, eqb,
  ◌==◌, string_eq, if◌then◌else◌,
}
use arlon.Go.Exec.{
  nil_map, nil_pointer, Result, ok, err, Exec, pure, fail, ◌>>=◌, ◌>>◌, ◌>>=ᵣ◌, wrap, reads,
  wrapped,
}
use arlon.Go.Map.{StringMap, insert, read}
use arlon.Go.Strconv.{format_uint}
use arlon.Argo.{Application, HelmParameter}
use arlon.ClusterApps.{construct_root_app}
use arlon.ClusterApps.FromSpec.{specs_of}
use arlon.ClusterSpec.{ConfigMap, subchart_name}
use arlon.Git.{RepoCreds, get_repo_creds_from_argocd}
use arlon.Profiles.{Profile}
use arlon.Clusters.{Cluster, annotation, get}
use arlon.Clusters.External.{Answer, found, failed, Api}
use arlon.Clusters.Managed.{
  create_profile_app, destroy_profile_apps, profile_app_name, unmanage_external,
}
use arlon.Clusters.Paths.{mgmt_path_from_base_path, decompose_path}

-- `codes.NotFound` of gRPC.
abbrev not_found : ℕ
not_found = 5

-- An application that is not found lets `create` go on.
unfoldable pub check_no_app : Answer → Result (Unit {0})
check_no_app (found app) = err "arlon cluster already exists"
check_no_app (failed none e) = err "failed to get grpc status from error"
check_no_app (failed (some code) e) =
    if not (eqb code not_found)
    then err ("unexpected cluster application error code: " <> format_uint code)
    else ok tt

abbrev profile_name_of : Option Profile → String
profile_name_of none = "no-profile-for-gen2"
profile_name_of (some prof) = prof.name

abbrev bundle_names : Option Profile → List String
bundle_names none = []
bundle_names (some prof) = prof.bundles

abbrev contents_of : Option ConfigMap → Option StringMap
contents_of none = none
contents_of (some cm) = some cm.contents

-- The cluster type of the old application, which the new specification must preserve. The
-- parameters of an application without a Helm part are read from a nil pointer.
unfoldable pub same_subchart : Application → String → Result (Unit {0})
same_subchart old name = elim old.source.helm [
  | none ↦ err nil_pointer
  | some params ↦
      if not (any (λ (p : HelmParameter). p.name == ("tags." <> name) && p.value == "true") params)
      then err "the api provider, cloud provider, or cluster type cannot change"
      else ok tt
]

-- A value that is given, or else that of an annotation, which must be there.
abbrev pub or_annotation : Application → (key what given : String) → Result String
or_annotation old key what given =
    if not (given == "")
    then ok given
    else if annotation old key == ""
    then err ("existing cluster root app is missing " <> (what <> " annotation"))
    else ok (annotation old key)

abbrev pub existing : String → Answer → Result Application
existing context (found app) = ok app
existing context (failed code e) = err (context <> e)

module _ (api : Api) (finalizer argocd_ns : String) where
  abbrev repo_creds : String → Exec api.World RepoCreds
  repo_creds repo_url = reads (λ w. get_repo_creds_from_argocd (api.repo_secrets w) repo_url)

  -- The config map of a specification; none for a cluster of the second generation.
  unfoldable pub spec_of : String → api.World → Result (Option ConfigMap)
  spec_of spec_name w =
      if spec_name == ""
      then ok none
      else wrap "failed to get clusterspec configmap: " (api.get_config_map spec_name w)
        >>=ᵣ (λ cm. ok (some cm))

  -- The files of a cluster of the first generation.
  unfoldable pub deploy :
      (cluster_name repo_url repo_branch base_path : String)
      → Option Profile
      → Exec api.World (Unit {0})
  deploy cluster_name repo_url repo_branch base_path prof =
      wrapped "failed to get repo credentials: " (repo_creds repo_url) >>= λ creds.
      wrapped "failed to get bundles from profile: " (reads (api.get_bundles (bundle_names prof)))
      >>= λ bundles.
          wrapped "failed to deploy git tree: "
            (api.deploy_to_git creds bundles cluster_name repo_url repo_branch base_path prof)

  unfoldable pub create :
      (cluster_name base_cluster_name repo_url repo_branch base_path spec_name : String)
      → Option Profile
      → (create_in_argocd : Bool) → (mgmt_url : String) → (with_cas : Bool)
      → Exec api.World Application
  unfolding spec_of deploy check_no_app
  create cluster_name base_cluster_name repo_url repo_branch base_path spec_name prof
        create_in_argocd mgmt_url with_cas =
      wrapped "failed to get kube client: " (reads api.kube_client)
      >> reads (λ w. check_no_app (api.get_app cluster_name w))
      >> reads (spec_of spec_name)
      >>= λ cm.
          wrapped "failed to construct root app: " (
            reads (λ _.
              construct_root_app (specs_of finalizer) argocd_ns cluster_name base_cluster_name
                repo_url repo_branch
                (if spec_name == ""
                  then base_path
                  else mgmt_path_from_base_path base_path cluster_name)
                spec_name (contents_of cm) (profile_name_of prof) mgmt_url with_cas))
          >>= λ root.
              (if spec_name == ""
                then pure tt
                else deploy cluster_name repo_url repo_branch base_path prof)
              >> (if create_in_argocd
                  then wrapped "failed to create ArgoCD root application: " (api.create_app root)
                  else pure tt)
              >> pure root

  -- The new root application, and the base path, from the old one and the specification.
  unfoldable pub new_root :
      (cluster_name spec_name mgmt_url : String)
      → Application
      → Profile
      → ConfigMap
      → Result (Application × String)
  new_root cluster_name spec_name mgmt_url old prof cm = subchart_name cm >>=ᵣ λ subchart.
      same_subchart old subchart >>=ᵣ λ _.
      wrap "failed to decompose repo path: " (decompose_path old.source.path) >>=ᵣ λ parts.
      if not (parts.1 == cluster_name)
      then err ("unexpected cluster name extracted from repo path: " <> parts.1)
      else wrap "failed to construct root app: " (
          construct_root_app (specs_of finalizer) argocd_ns cluster_name "" old.source.repo_url
            old.source.target_revision old.source.path spec_name (some cm.contents) prof.name
            mgmt_url false)
        >>=ᵣ λ root.
            if not (old.source.repo_url == root.source.repo_url)
              || not (old.source.path == root.source.path)
            then err "git repo reference cannot change"
            else ok (root, parts.0)

  -- What `update` reads and checks, up to the bundles.
  unfoldable pub root_to_update :
      (cluster_name spec_name profile_name mgmt_url : String)
      → api.World
      → Application
      → Result (Application × (Profile × String))
  unfolding new_root
  root_to_update cluster_name spec_name profile_name mgmt_url w old =
      or_annotation old "arlon.io/clusterspec" "clusterspec" spec_name >>=ᵣ λ spec.
      or_annotation old "arlon.io/profile" "profile" profile_name >>=ᵣ λ prof_name.
      wrap "failed to get profile: " (api.get_profile prof_name w) >>=ᵣ λ prof.
      wrap "failed to get kube client: " (api.kube_client w) >>=ᵣ λ _.
      wrap "failed to get clusterspec configmap: " (api.get_config_map spec w) >>=ᵣ λ cm.
      new_root cluster_name spec mgmt_url old prof cm >>=ᵣ λ next. ok (next.0, (prof, next.1))

  -- What it then writes.
  unfoldable pub write_update :
      (cluster_name : String)
      → Bool
      → Application
      → Application × (Profile × String)
      → Exec api.World (Unit {0})
  write_update cluster_name update_in_argocd old (root, (prof, base_path)) =
      wrapped "failed to get bundles: " (reads (api.get_bundles prof.bundles)) >>= λ bundles.
      wrapped "failed to get repository credentials: " (repo_creds old.source.repo_url) >>= λ creds.
      wrapped "failed to deploy git tree: " (
        api.deploy_to_git creds bundles cluster_name old.source.repo_url old.source.target_revision
          base_path (some prof))
      >> (if update_in_argocd
          then wrapped "failed to update ArgoCD root application: " (api.update_app root)
          else pure tt)

  unfoldable pub update :
      (cluster_name spec_name profile_name : String)
      → (update_in_argocd : Bool) → (mgmt_url : String) → Exec api.World Application
  unfolding write_update
  update cluster_name spec_name profile_name update_in_argocd mgmt_url =
      reads (λ w. existing "failed to get argocd app: " (api.get_app cluster_name w)) >>= λ old.
      reads (λ w. root_to_update cluster_name spec_name profile_name mgmt_url w old) >>= λ next.
      write_update cluster_name update_in_argocd old next >> pure next.0

  -- The directory of overrides of a cluster application.
  unfoldable pub delete_overrides_dir : Application → String → Exec api.World (Unit {0})
  delete_overrides_dir app cluster_name =
      let repo_url = annotation app "arlon.io/basecluster-repo-url" in
      wrapped "failed to get repo credentials: " (repo_creds repo_url) >>= λ creds.
      api.delete_overrides creds repo_url (annotation app "arlon.io/basecluster-repo-revision")
        (annotation app "arlon.io/basecluster-repo-path" <> ("/" <> cluster_name))

  -- The applications of a cluster of the second generation.
  unfoldable pub delete_each : String → List Application → Exec api.World (Unit {0})
  unfolding delete_overrides_dir
  delete_each name [] = pure tt
  delete_each name (app ∷ apps) =
      (if (read app.labels "arlon-type" == "cluster-app")
          && (annotation app "arlon.io/basecluster-overridden" == "true")
        then wrapped "failed to delete the overrides directory: " (delete_overrides_dir app name)
        else pure tt)
      >> wrapped ("failed to delete related app " <> (app.name <> ": ")) (api.delete_app app.name)
      >> delete_each name apps

  abbrev is_gen1 : Cluster → Bool
  is_gen1 c = elim c.base_cluster [ none ↦ true | some _ ↦ false ]

  unfoldable pub delete : String → Exec api.World (Unit {0})
  unfolding delete_each
  delete name =
      wrapped "failed to get kube client: " (reads api.kube_client)
      >> wrapped "failed to get argocd application client: " (reads api.app_client)
      >> wrapped "failed to get existing cluster: " (reads (get api name))
      >>= λ cluster.
          if cluster.is_external
          then unmanage_external api finalizer argocd_ns name
          else if is_gen1 cluster
          then api.delete_app name
          else wrapped "failed to list apps related to cluster: "
              (reads (api.list_apps ("arlon-cluster=" <> name)))
            >>= λ apps. delete_each name apps

  -- ngupdate.go: a new profile for a cluster of the second generation.
  unfoldable pub ng_update :
      (cluster_name profile_name : String) → Bool → Exec api.World Application
  ng_update cluster_name profile_name update_in_argocd =
      wrapped "failed to get profile: " (reads (api.get_profile profile_name)) >>= λ prof.
      if prof.repo_url == ""
      then fail "RepoUrl empty, static profiles are unsupported"
      else wrapped "Failed to delete profile app: "
          (destroy_profile_apps api finalizer argocd_ns cluster_name)
        >> wrapped "failed to create profile app: " (
            create_profile_app api finalizer argocd_ns (profile_app_name cluster_name prof)
              cluster_name prof update_in_argocd)

  unfoldable pub set_app_profiles : (name comma_separated : String) → Exec api.World (Unit {0})
  set_app_profiles name comma_separated =
      reads (λ w. existing "failed to get argocd application: " (api.get_app name w)) >>= λ app.
      if not (read app.labels "arlon-type" == "cluster-app")
      then fail "application resource is not an Arlon cluster"
      else elim app.annotations [
        | none ↦ fail nil_map
        | some annotations ↦ wrapped "failed to update argocd application: " (
            api.update_app (record app {
              annotations = some (insert "arlon.io/profiles" comma_separated annotations);
            }))
      ]
