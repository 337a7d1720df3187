-- ===== src/ClusterSpec/Calls.antt =====
-- Get of pkg/clusterspec/clusterspec.go, and create.go, update.go and delete.go: specifications in
-- the config maps of Arlon's namespace.
use arlon.Prelude.{
  zero, suc, String, ◌<>◌, Bool, true, false, not, ◌||◌, Option, none, some, List, ◌==◌, string_eq,
  if◌then◌else◌,
}
use arlon.Go.Exec.{Result, ok, err, Exec, pure, ◌>>=◌, ◌>>◌, reads, wrapped}
use arlon.Go.Strconv.{ℤ, pos, negsuc}
use arlon.ClusterSpec.{ClusterSpec, ConfigMap, from_config_map, to_config_map}
use arlon.ClusterSpec.Values.{
  valid_api_provider, valid_cloud_provider_and_cluster_type, validate_region_by_provider,
}

-- The calls of Kubernetes on config maps. `is_not_found` is `IsNotFound`, on the text of an error;
-- `regions` are the constants of the AWS SDK.
pub record ConfigMaps : Type 1 where
  pub World : Type 0
  pub get : String → World → Result ConfigMap
  pub create : ConfigMap → Exec World (Unit {0})
  pub update : ConfigMap → Exec World (Unit {0})
  pub delete : String → Exec World (Unit {0})
  pub is_not_found : String → Bool
  pub regions : List String

-- What `update` is given: an empty string, a zero or a nil pointer leaves a field as it is.
pub record Changes : Type 0 where
  pub kubernetes_version : String
  pub node_type : String
  pub node_count : ℤ
  pub master_node_count : ℤ
  pub cluster_autoscaler_enabled : Option Bool
  pub cluster_autoscaler_min_nodes : ℤ
  pub cluster_autoscaler_max_nodes : ℤ
  pub description : String
  pub tags : String

-- `== 0`
unfoldable pub is_zero : ℤ → Bool
is_zero (pos zero) = true
is_zero (pos (suc n)) = false
is_zero (negsuc n) = false

abbrev pub text_or : String → String → String
text_or given kept = if given == "" then kept else given

abbrev pub int_or : ℤ → ℤ → ℤ
int_or given kept = if is_zero given then kept else given

abbrev pub bool_or : Option Bool → Bool → Bool
bool_or none kept = kept
bool_or (some given) kept = given

abbrev pub is_given : Option Bool → Bool
is_given none = false
is_given (some b) = true

unfoldable pub dirty : Changes → Bool
dirty ch =
    not (ch.kubernetes_version == "")
    || (not (ch.node_type == "")
        || (not (is_zero ch.node_count)
            || (not (is_zero ch.master_node_count)
                || (is_given ch.cluster_autoscaler_enabled
                    || (not (is_zero ch.cluster_autoscaler_min_nodes)
                        || (not (is_zero ch.cluster_autoscaler_max_nodes)
                            || (not (ch.description == "") || not (ch.tags == ""))))))))

-- The arguments that `update` passes to `to_config_map`.
unfoldable pub merged : String → Changes → ClusterSpec → ClusterSpec
merged spec_name ch cs = record cs {
  name = spec_name;
  kubernetes_version = text_or ch.kubernetes_version cs.kubernetes_version;
  node_type = text_or ch.node_type cs.node_type;
  node_count = int_or ch.node_count cs.node_count;
  master_node_count = int_or ch.master_node_count cs.master_node_count;
  cluster_autoscaler_enabled = bool_or ch.cluster_autoscaler_enabled cs.cluster_autoscaler_enabled;
  cluster_autoscaler_min_nodes =
      int_or ch.cluster_autoscaler_min_nodes cs.cluster_autoscaler_min_nodes;
  cluster_autoscaler_max_nodes =
      int_or ch.cluster_autoscaler_max_nodes cs.cluster_autoscaler_max_nodes;
  description = text_or ch.description cs.description;
  tags = text_or ch.tags cs.tags;
}

module _ (api : ConfigMaps) where
  unfoldable pub get : String → api.World → Result ClusterSpec
  get spec_name w = elim (api.get spec_name w) [ err e ↦ err e | ok cm ↦ from_config_map cm ]

  -- The existence check: only a config map that is not found lets `create` go on.
  unfoldable pub check_absent : String → api.World → Result (Unit {0})
  unfolding get
  check_absent spec_name w = elim (get spec_name w) [
    | ok _ ↦ err "a clusterspec with that name already exists"
    | err e ↦
        if not (api.is_not_found e)
        then err ("failed to check for existence of clusterspec: " <> e)
        else ok tt
  ]

  -- The arguments of the function are the fields of a specification, all but its pod CIDR block.
  unfoldable pub create : ClusterSpec → Exec api.World (Unit {0})
  create cs =
      reads (λ _. valid_api_provider cs.api_provider)
      >> reads (λ _. valid_cloud_provider_and_cluster_type cs.cloud_provider cs.type)
      >> reads (λ _. validate_region_by_provider api.regions cs.cloud_provider cs.region)
      >> reads (check_absent cs.name)
      >> wrapped "failed to create clusterspec configmap: "
          (api.create (to_config_map (record cs { pod_cidr_block = "" })))

  unfoldable pub update : String → Changes → Exec api.World Bool
  update spec_name ch = wrapped "failed to get clusterspec: " (reads (get spec_name)) >>= λ cs.
      if not (dirty ch)
      then pure false
      else wrapped "failed to update clusterspec configmap: "
          (api.update (to_config_map (merged spec_name ch cs)))
        >> pure true

  unfoldable pub delete : String → Exec api.World (Unit {0})
  delete spec_name = wrapped "failed to delete clusterspec: " (api.delete spec_name)
