-- ===== src/Clusters.antt =====
-- pkg/cluster: clusters as Argo CD's applications and secrets. Here stand util.go, types.go, get.go
-- and list.go.
pub mod External
pub mod Paths
pub mod Managed
pub mod Changes
mod Updates
mod Release
mod Tests
use arlon.Prelude.{
  String, ◌<>◌, Bool, true, false, not, Option, none, some, List, [], ◌∷◌, ◌++◌, map, ◌==◌,
  string_eq, if◌then◌else◌,
}
use arlon.Go.Exec.{Result, ok, err, ◌>>=ᵣ◌, wrap}
use arlon.Go.Map.{StringMap, read, or_empty}
use arlon.Go.Strings.{comma, split}
use arlon.Argo.{Application}
use External.{Answer, found, failed, ClusterSecret, Api}

pub record BaseClusterInfo : Type 0 where
  pub name : String
  pub repo_url : String
  pub repo_revision : String
  pub repo_path : String
  pub overridden : String

pub record Cluster : Type 0 where
  pub name : String
  pub cluster_spec_name : String
  pub profile_name : String
  pub is_external : Bool
  pub secret_name : String
  pub base_cluster : Option BaseClusterInfo
  pub app_profiles : List String

abbrev pub cluster_type_label_key : String
cluster_type_label_key = "arlon.io/cluster-type"

abbrev pub argo_cluster_secret_type_label : String
argo_cluster_secret_type_label = "argocd.argoproj.io/secret-type=cluster"

abbrev pub external_selector : String
external_selector = "argocd.argoproj.io/secret-type=cluster,arlon.io/cluster-type=external"

abbrev pub annotation : Application → String → String
annotation app key = read (or_empty app.annotations) key

abbrev pub external_cluster : String → ClusterSecret → Cluster
external_cluster name secr = record {
  name = name;
  cluster_spec_name = "";
  profile_name = read (or_empty secr.annotations) "arlon.io/profile";
  is_external = true;
  secret_name = secr.name;
  base_cluster = none;
  app_profiles = [];
}

abbrev pub gen1_cluster : Application → Cluster
gen1_cluster app = record {
  name = app.name;
  cluster_spec_name = annotation app "arlon.io/clusterspec";
  profile_name = annotation app "arlon.io/profile";
  is_external = false;
  secret_name = "";
  base_cluster = none;
  app_profiles = [];
}

abbrev pub gen2_cluster : String → List String → Application → Cluster
gen2_cluster profile_name app_profiles app = record {
  name = app.name;
  cluster_spec_name = "";
  profile_name = profile_name;
  is_external = false;
  secret_name = "";
  base_cluster = some (record {
    name = annotation app "arlon.io/basecluster-name";
    repo_url = annotation app "arlon.io/basecluster-repo-url";
    repo_revision = annotation app "arlon.io/basecluster-repo-revision";
    repo_path = annotation app "arlon.io/basecluster-repo-path";
    overridden = "";
  });
  app_profiles = app_profiles;
}

-- The first secret of the cluster.
unfoldable pub find_secret : String → List ClusterSecret → Option ClusterSecret
find_secret name [] = none
find_secret name (s ∷ ss) =
    let rest = find_secret name ss in if s.cluster == name then some s else rest

module _ (api : Api) where
  unfoldable pub get_matching_profile_name : String → api.World → Result String
  get_matching_profile_name cluster_name w =
      wrap ("failed to list profile apps associated with cluster " <> (cluster_name <> ": "))
        (api.list_apps ("managed-by=arlon,arlon-type=profile-app,arlon-cluster=" <> cluster_name) w)
      >>=ᵣ λ apps. elim apps [ [] ↦ ok "" | app ∷ _ ↦ ok (read app.labels "arlon-profile") ]

  unfoldable pub cluster_of_app : Application → api.World → Result Cluster
  cluster_of_app app w =
      let type = read app.labels "arlon-type" in
      if type == "cluster"
      then ok (gen1_cluster app)
      else if type == "cluster-app"
      then wrap "failed to matching profile name: " (get_matching_profile_name app.name w)
        >>=ᵣ (λ profile_name. ok (gen2_cluster profile_name [] app))
      else err "not an arlon cluster"

  unfoldable pub get : String → api.World → Result Cluster
  unfolding find_secret
  get name w = wrap "failed to get kube client: " (api.kube_client w) >>=ᵣ λ _.
      wrap "failed to list cluster secrets: " (api.list_secrets external_selector w) >>=ᵣ λ secrets.
      elim (find_secret name secrets) [
        | some secr ↦ ok (external_cluster name secr)
        | none ↦ elim (api.get_app name w) [
          | failed code e ↦ err ("failed to get argocd application: " <> e)
          | found app ↦ cluster_of_app app w
        ]
      ]

  unfoldable pub gen2_clusters : List Application → api.World → Result (List Cluster)
  gen2_clusters [] w = ok []
  gen2_clusters (app ∷ apps) w =
      let rest = gen2_clusters apps w in
      wrap "failed to matching profile name: " (get_matching_profile_name app.name w)
      >>=ᵣ λ profile_name. rest >>=ᵣ λ others. ok (
          gen2_cluster profile_name (split comma (annotation app "arlon.io/profiles")) app ∷ others)

  unfoldable pub list : api.World → Result (List Cluster)
  list w =
      wrap "failed to list argocd applications: "
        (api.list_apps "managed-by=arlon,arlon-type=cluster" w)
      >>=ᵣ λ apps.
          wrap "failed to list next-gen clusters: "
            (api.list_apps "managed-by=arlon,arlon-type=cluster-app" w)
          >>=ᵣ λ next_gen. gen2_clusters next_gen w >>=ᵣ λ clusters.
              wrap "failed to get kube client: " (api.kube_client w) >>=ᵣ λ _.
              wrap "failed to list cluster secrets: " (api.list_secrets external_selector w)
              >>=ᵣ λ secrets. ok (
                  (map gen1_cluster apps ++ clusters)
                  ++ map (λ s. external_cluster s.cluster s) secrets)
