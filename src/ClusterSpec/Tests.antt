-- ===== src/ClusterSpec/Tests.antt =====
-- A specification in a namespace that holds at most one config map.
use arlon.Prelude.{
  String, ◌<>◌, ◌≡◌, refl, ap, ==-refl, true, Option, none, some, [], ◌∷◌, arith, ◌==◌, string_eq,
  if◌then◌else◌,
}
use mathlib.Core.Path.{subst}
use arlon.Go.Exec.{Result, ok, err}
use arlon.Go.Map.{lookup}
use arlon.Go.Strconv.{pos, negsuc, atoi, scan}
use arlon.ClusterSpec.{ClusterSpec, ConfigMap, from_config_map, to_config_map, subchart_name}
use arlon.ClusterSpec.Values.{
  valid_api_provider, valid_cloud_provider_and_cluster_type, is_one_of, validate_region_by_provider,
}
use arlon.ClusterSpec.Calls.{ConfigMaps, Changes, get, check_absent, create, update}
use arlon.ClusterSpec.RoundTrip.{InRange, from_config_map-to_config_map}
use arlon.ClusterSpec.Laws.{Stores, create-get}

abbrev found : String → Option ConfigMap → Result ConfigMap
found key none = err "not found"
found key (some cm) = if cm.name == key then ok cm else err "not found"

abbrev api : ConfigMaps
api = record {
  World = Option ConfigMap;
  get = found;
  create = λ cm w. (ok tt, some cm);
  update = λ cm w. (ok tt, some cm);
  delete = λ key w. (ok tt, none);
  is_not_found = λ e. e == "not found";
  regions = "us-west-2" ∷ "us-east-1" ∷ [];
}

abbrev small : ClusterSpec
small = record {
  name = "small";
  api_provider = "capi";
  cloud_provider = "aws";
  type = "eks";
  kubernetes_version = "v1.22";
  node_type = "t2.medium";
  node_count = pos 12;
  master_node_count = negsuc 6;
  region = "us-west-2";
  pod_cidr_block = "";
  ssh_key_name = "key";
  tags = "";
  description = "a test";
  cluster_autoscaler_enabled = true;
  cluster_autoscaler_min_nodes = pos 1;
  cluster_autoscaler_max_nodes = pos 0;
}

small-InRange : InRange small
small-InRange = (omega arith, omega arith, omega arith, omega arith)

from_config_map-to_config_map_example : from_config_map (to_config_map small) ≡ ok small
from_config_map-to_config_map_example = from_config_map-to_config_map small small-InRange

found_lem : (cm : ConfigMap) → found cm.name (some cm) ≡ ok cm
found_lem cm = rw (==-refl cm.name) refl

stored_always : Stores api (λ cm w. (ok tt, some cm))
stored_always cm w w' h =
    subst (λ v. api.get cm.name v ≡ ok cm)
      (ap (λ (r : Result (Unit {0}) × Option ConfigMap). r.1) h) (found_lem cm)

created : create api small none ≡ (ok tt, some (to_config_map small))
unfolding create check_absent get valid_api_provider valid_cloud_provider_and_cluster_type
    validate_region_by_provider is_one_of lookup string_eq
created = refl

create-get_example :
    (is_one_of "us-west-2" api.regions ≡ true)
    × ◌≡◌ {A = String} "aws" "aws"
    × (check_absent api "small" none ≡ ok tt)
    × (get api "small" (some (to_config_map small)) ≡ ok small)
    × (subchart_name (to_config_map small) ≡ ok ("capi" <> ("-" <> ("aws" <> ("-" <> "eks")))))
create-get_example =
    create-get api small none (some (to_config_map small)) small-InRange stored_always created

abbrev growth : Changes
growth = record {
  kubernetes_version = "";
  node_type = "";
  node_count = pos 20;
  master_node_count = pos 0;
  cluster_autoscaler_enabled = none;
  cluster_autoscaler_min_nodes = pos 0;
  cluster_autoscaler_max_nodes = pos 0;
  description = "grown";
  tags = "";
}

abbrev grown : ClusterSpec
grown = record small { node_count = pos 20; description = "grown" }

-- A number that does not parse: an error for the nodes, the default for the rest.
no_nodes :
    from_config_map (record { name = "x"; labels = []; contents = ("nodeCount", "9x") ∷ [] })
    ≡ err "could not parse clusterspec nodeCount: strconv.Atoi: parsing \"9x\": invalid syntax"
unfolding from_config_map lookup string_eq atoi scan
no_nodes = refl
