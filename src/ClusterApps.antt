-- ===== src/ClusterApps.antt =====
-- pkg/cluster/root_app.go and pkg/cluster/cluster_app.go: the two applications of a cluster. A
-- cluster of the first generation has a cluster specification in a config map and only the root
-- application; one of the second generation has none, and a cluster application beside it.
pub mod Laws
pub mod FromSpec
mod Tests
use arlon.Prelude.{
  String, ◌<>◌, Bool, true, false, not, Option, none, some, List, [], ◌∷◌, ◌++◌, ◌==◌, string_eq,
  if◌then◌else◌,
}
use arlon.Go.Exec.{Result, ok, err, Exec, pure, ◌>>=◌, ◌>>◌, wrapped}
use arlon.Go.Map.{StringMap, insert, read}
use arlon.Argo.{HelmParameter, IgnoreDifference, Source, SyncPolicy, Application}

-- What the constructions use of pkg/clusterspec and of Argo CD's package.
pub record Specs : Type 1 where
  pub Spec : Type 0
  -- from the data of a config map
  pub from_config_map : StringMap → Result Spec
  pub api_provider : Spec → String
  pub cluster_autoscaler_enabled : Spec → Bool
  pub subchart_name : Spec → Result String
  pub autoscaler_subchart_name : String → String
  pub kubeconfig_secret_key_name : String → String
  pub valid_helm_param_keys : List String
  pub foreground_finalizer : String

abbrev pub machine_deployment : IgnoreDifference
machine_deployment = record {
  group = "cluster.x-k8s.io";
  kind = "MachineDeployment";
  json_pointers = "/spec/replicas" ∷ [];
}

abbrev pub control_plane : IgnoreDifference
control_plane = record {
  group = "controlplane.cluster.x-k8s.io";
  kind = "AWSManagedControlPlane";
  json_pointers = "/spec/version" ∷ [];
}

abbrev pub machine_template : IgnoreDifference
machine_template = record {
  group = "infrastructure.cluster.x-k8s.io";
  kind = "AWSMachineTemplate";
  json_pointers = "/spec" ∷ [];
}

abbrev pub param : String → String → HelmParameter
param name value = record { name = name; value = value }

abbrev pub pruning : Option SyncPolicy
pruning = some (record { automated = some true; sync_options = "Prune=true" ∷ [] })

-- The parameters of the valid keys that the config map has a value for.
unfoldable pub key_params : StringMap → List String → List HelmParameter
key_params cm [] = []
key_params cm (key ∷ keys) =
    let rest = key_params cm keys in
    if not (read cm key == "") then param ("global." <> key) (read cm key) ∷ rest else rest

-- `%v` of a Boolean.
abbrev show_bool : Bool → String
show_bool true = "true"
show_bool false = "false"

module _ (S : Specs) where
  unfoldable pub enable_cluster_autoscaler :
      String
      → List HelmParameter
      → List IgnoreDifference
      → Result (List HelmParameter × List IgnoreDifference)
  enable_cluster_autoscaler provider params diffs =
      if S.autoscaler_subchart_name provider == ""
      then err ("failed to get cluster autoscaler subchart name for " <> provider)
      else ok (
        params ++ param ("tags." <> S.autoscaler_subchart_name provider) "true" ∷ [],
        diffs ++ machine_deployment ∷ [],
      )

  -- The parameters that clusters of both generations have.
  abbrev pub common_params : String → String → String → String → List HelmParameter
  common_params clust_name inner provider mgmt_url =
      param "global.clusterFullNameWithInnerCluster"
        (if not (inner == "") then clust_name <> ("-" <> inner) else clust_name)
      ∷ param "global.clusterName" clust_name
      ∷ param "global.kubeconfigSecretKeyName" (S.kubeconfig_secret_key_name provider)
      ∷ param "global.managementClusterUrl" mgmt_url
      ∷ (if not (inner == "")
          then param "global.innerClusterNameWithDashSuffix" (inner <> "-") ∷ []
          else [])

  -- The Helm parameters and ignored differences of the first generation.
  unfoldable pub gen1_params :
      String
      → String
      → String
      → StringMap
      → S.Spec
      → Result (List HelmParameter × List IgnoreDifference)
  unfolding enable_cluster_autoscaler
  gen1_params clust_name inner mgmt_url cm cs =
      let params =
        common_params clust_name inner (S.api_provider cs) mgmt_url
        ++ key_params cm S.valid_helm_param_keys in
      elim (S.subchart_name cs) [
        | err e ↦ err ("failed to retrieve subchart name: " <> e)
        | ok name ↦
            let tagged = params ++ param ("tags." <> name) "true" ∷ [] in
            if S.cluster_autoscaler_enabled cs
            then elim (enable_cluster_autoscaler (S.api_provider cs) tagged []) [
              | err e ↦
                  err (
                    "failed to enable cluster autoscaler for "
                    <> (S.api_provider cs <> (": " <> e)))
              | ok (more, diffs) ↦ ok (more, diffs ++ control_plane ∷ [])
            ]
            else ok (tagged, control_plane ∷ [])
      ]

  -- Those of the second: the ignored differences are not used.
  unfoldable pub gen2_params :
      String → String → String → Bool → Result (List HelmParameter × List IgnoreDifference)
  unfolding enable_cluster_autoscaler
  gen2_params clust_name inner mgmt_url gen2_cas =
      if gen2_cas
      then elim (enable_cluster_autoscaler "capi" [] []) [
        | err e ↦ err e
        | ok (params, diffs) ↦ ok (params ++ common_params clust_name inner "capi" mgmt_url, [])
      ]
      else ok (common_params clust_name inner "capi" mgmt_url, [])

  abbrev pub root_params :
      String
      → String
      → Option StringMap
      → String
      → Bool
      → Result (List HelmParameter × List IgnoreDifference)
  root_params clust_name inner none mgmt_url gen2_cas =
      gen2_params clust_name inner mgmt_url gen2_cas
  root_params clust_name inner (some cm) mgmt_url gen2_cas = elim (S.from_config_map cm) [
    | err e ↦ err ("failed to read clusterspec from configmap: " <> e)
    | ok cs ↦ gen1_params clust_name inner mgmt_url cm cs
  ]

  abbrev with_cluster_label : String → Option StringMap → StringMap → StringMap
  with_cluster_label clust_name none labels = insert "arlon-cluster" clust_name labels
  with_cluster_label clust_name (some cm) labels = labels

  unfoldable pub construct_root_app :
      (argocd_ns clust_name inner repo_url repo_branch repo_path spec_name : String)
      (cm : Option StringMap) (profile_name mgmt_url : String) (gen2_cas : Bool)
      → Result Application
  construct_root_app argocd_ns clust_name inner repo_url repo_branch repo_path spec_name cm
        profile_name mgmt_url gen2_cas =
      let gen2 = spec_name == "" in
      elim (root_params clust_name inner cm mgmt_url gen2_cas) [
        | err e ↦ err e
        | ok (params, diffs) ↦ ok (record {
          name = if gen2 then clust_name <> "-arlon" else clust_name;
          namespace = argocd_ns;
          labels = with_cluster_label clust_name cm (
              ("managed-by", "arlon")
              ∷ ("arlon-type", if gen2 then "arlon-app" else "cluster")
              ∷ []);
          annotations =
              some (("arlon.io/clusterspec", spec_name) ∷ ("arlon.io/profile", profile_name) ∷ []);
          finalizers = S.foreground_finalizer ∷ [];
          deleting = false;
          source = record {
            repo_url = repo_url;
            path = repo_path;
            target_revision = repo_branch;
            helm = some params;
            kustomize = none;
          };
          server = "https://kubernetes.default.svc";
          destination_namespace = "default";
          sync_policy = pruning;
          ignore_differences = diffs;
        })
      ]

  unfoldable pub construct_cluster_app :
      (argocd_ns clust_name base_name repo_url repo_revision repo_path : String) (overridden : Bool)
      → Application
  construct_cluster_app argocd_ns clust_name base_name repo_url repo_revision repo_path overridden =
      record {
        name = clust_name;
        namespace = argocd_ns;
        labels =
            ("managed-by", "arlon")
            ∷ ("arlon-type", "cluster-app")
            ∷ ("arlon-cluster", clust_name)
            ∷ [];
        annotations = some (
            ("arlon.io/basecluster-name", base_name)
            ∷ ("arlon.io/basecluster-repo-url", repo_url)
            ∷ ("arlon.io/basecluster-repo-revision", repo_revision)
            ∷ ("arlon.io/basecluster-repo-path", repo_path)
            ∷ ("arlon.io/basecluster-overridden", show_bool overridden)
            ∷ []);
        finalizers = S.foreground_finalizer ∷ [];
        deleting = false;
        source = record {
          repo_url = repo_url;
          path = if overridden then repo_path <> ("/" <> clust_name) else repo_path;
          target_revision = repo_revision;
          helm = none;
          kustomize = some (clust_name <> "-");
        };
        server = "https://kubernetes.default.svc";
        destination_namespace = clust_name;
        sync_policy = pruning;
        ignore_differences = machine_deployment ∷ control_plane ∷ machine_template ∷ [];
      }

  -- `create` is the call of Argo CD that adds an application.
  unfoldable pub create_cluster_app :
      {W : Type 0} (create : Application → Exec W (Unit {0}))
      (argocd_ns clust_name base_name repo_url repo_revision repo_path : String)
      (create_in_argocd overridden : Bool)
      → Exec W Application
  create_cluster_app create argocd_ns clust_name base_name repo_url repo_revision repo_path
        create_in_argocd overridden =
      let app =
        construct_cluster_app argocd_ns clust_name base_name repo_url repo_revision repo_path
          overridden in
      if create_in_argocd
      then wrapped "failed to create cluster application: " (create app) >> pure app
      else pure app
