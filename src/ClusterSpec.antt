-- ===== src/ClusterSpec.antt =====
-- pkg/clusterspec/clusterspec.go: a cluster specification and its config map.
pub mod Values
pub mod Calls
pub mod RoundTrip
mod Laws
mod Tests
use arlon.Prelude.{String, ◌<>◌, Bool, true, false, List, [], ◌∷◌}
use arlon.Go.Exec.{Result, ok, err, wrap}
use arlon.Go.Map.{StringMap, read}
use arlon.Go.Strconv.{ℤ, pos, atoi, itoa, format_bool, parse_bool}
use arlon.ClusterSpec.Values.{valid_api_provider, valid_cloud_provider_and_cluster_type}

pub record ClusterSpec : Type 0 where
  pub name : String
  pub api_provider : String
  pub cloud_provider : String
  pub type : String
  pub kubernetes_version : String
  pub node_type : String
  pub node_count : ℤ
  pub master_node_count : ℤ
  pub region : String
  pub pod_cidr_block : String
  pub ssh_key_name : String
  pub tags : String
  pub description : String
  pub cluster_autoscaler_enabled : Bool
  pub cluster_autoscaler_min_nodes : ℤ
  pub cluster_autoscaler_max_nodes : ℤ

-- What the code uses of a Kubernetes config map.
pub record ConfigMap : Type 0 where
  pub name : String
  pub labels : StringMap
  pub contents : StringMap

abbrev pub valid_helm_param_keys : List String
valid_helm_param_keys =
    "region" ∷ "sshKeyName" ∷ "kubernetesVersion" ∷ "podCidrBlock" ∷ "nodeCount" ∷ "masterNodeCount"
    ∷ "nodeType" ∷ "clusterAutoscalerEnabled" ∷ "clusterAutoscalerMinNodes"
    ∷ "clusterAutoscalerMaxNodes" ∷ []

-- A value that does not parse is the default.
abbrev pub or_default : {A : Type 0} → A → Result A → A
or_default default (ok a) = a
or_default default (err e) = default

abbrev default_master_node_count : ℤ
default_master_node_count = pos 3

abbrev default_cluster_autoscaler_enabled : Bool
default_cluster_autoscaler_enabled = false

abbrev default_cluster_autoscaler_min_nodes : ℤ
default_cluster_autoscaler_min_nodes = pos 1

abbrev default_cluster_autoscaler_max_nodes : ℤ
default_cluster_autoscaler_max_nodes = pos 9

abbrev pub with_node_count : ConfigMap → ℤ → ClusterSpec
with_node_count cm node_count = record {
  name = cm.name;
  api_provider = read cm.contents "apiProvider";
  cloud_provider = read cm.contents "cloudProvider";
  type = read cm.contents "type";
  kubernetes_version = read cm.contents "kubernetesVersion";
  node_type = read cm.contents "nodeType";
  node_count = node_count;
  master_node_count =
      or_default default_master_node_count (atoi (read cm.contents "masterNodeCount"));
  region = read cm.contents "region";
  pod_cidr_block = read cm.contents "podCidrBlock";
  ssh_key_name = read cm.contents "sshKeyName";
  tags = read cm.contents "tags";
  description = read cm.contents "description";
  cluster_autoscaler_enabled =
      or_default default_cluster_autoscaler_enabled
        (parse_bool (read cm.contents "clusterAutoscalerEnabled"));
  cluster_autoscaler_min_nodes =
      or_default default_cluster_autoscaler_min_nodes
        (atoi (read cm.contents "clusterAutoscalerMinNodes"));
  cluster_autoscaler_max_nodes =
      or_default default_cluster_autoscaler_max_nodes
        (atoi (read cm.contents "clusterAutoscalerMaxNodes"));
}

unfoldable pub from_config_map : ConfigMap → Result ClusterSpec
from_config_map cm = elim (atoi (read cm.contents "nodeCount")) [
  | err e ↦ err ("could not parse clusterspec nodeCount: " <> e)
  | ok node_count ↦ ok (with_node_count cm node_count)
]

-- The arguments of the function are the fields of a specification.
unfoldable pub to_config_map : ClusterSpec → ConfigMap
to_config_map cs = record {
  name = cs.name;
  labels = ("managed-by", "arlon") ∷ ("arlon-type", "clusterspec") ∷ [];
  contents =
      ("apiProvider", cs.api_provider)
      ∷ ("cloudProvider", cs.cloud_provider)
      ∷ ("type", cs.type)
      ∷ ("kubernetesVersion", cs.kubernetes_version)
      ∷ ("nodeType", cs.node_type)
      ∷ ("nodeCount", itoa cs.node_count)
      ∷ ("masterNodeCount", itoa cs.master_node_count)
      ∷ ("region", cs.region)
      ∷ ("podCidrBlock", cs.pod_cidr_block)
      ∷ ("sshKeyName", cs.ssh_key_name)
      ∷ ("clusterAutoscalerEnabled", format_bool cs.cluster_autoscaler_enabled)
      ∷ ("clusterAutoscalerMinNodes", itoa cs.cluster_autoscaler_min_nodes)
      ∷ ("clusterAutoscalerMaxNodes", itoa cs.cluster_autoscaler_max_nodes)
      ∷ ("tags", cs.tags)
      ∷ ("description", cs.description)
      ∷ [];
}

unfoldable pub subchart_name_from_cluster_spec : ClusterSpec → Result String
subchart_name_from_cluster_spec cs = elim (valid_api_provider cs.api_provider) [
  | err e ↦ err e
  | ok _ ↦ elim (valid_cloud_provider_and_cluster_type cs.cloud_provider cs.type) [
    | err e ↦ err e
    | ok _ ↦ ok (cs.api_provider <> ("-" <> (cs.cloud_provider <> ("-" <> cs.type))))
  ]
]

unfoldable pub subchart_name : ConfigMap → Result String
subchart_name cm = elim (from_config_map cm) [
  | err e ↦ err e
  | ok cs ↦ subchart_name_from_cluster_spec cs
]

unfoldable pub autoscaler_subchart_name_from_api_provider : String → String
autoscaler_subchart_name_from_api_provider provider = provider <> "-cluster-autoscaler"

unfoldable pub autoscaler_subchart_name_from_cluster_spec : ClusterSpec → Result String
autoscaler_subchart_name_from_cluster_spec cs = elim (valid_api_provider cs.api_provider) [
  | err e ↦ err e
  | ok _ ↦ ok (autoscaler_subchart_name_from_api_provider cs.api_provider)
]
