-- ===== src/ClusterApps/Tests.antt =====
-- The applications of two clusters, with a specification of one key.
use arlon.Prelude.{◌<>◌, ◌≡◌, refl, true, false, none, some, [], ◌∷◌, elem, arith, ◌==◌, string_eq}
use arlon.Go.Exec.{Result, ok, err}
use arlon.Go.Map.{StringMap, lookup, read}
use arlon.Argo.{Application}
use arlon.Go.Strconv.{pos}
use arlon.ClusterSpec.{ClusterSpec, to_config_map, subchart_name_from_cluster_spec}
use arlon.ClusterSpec.Values.{valid_api_provider, valid_cloud_provider_and_cluster_type}
use arlon.ClusterApps.FromSpec.{specs_of, construct_root_app-to_config_map}
use arlon.ClusterApps.{
  Specs, machine_deployment, control_plane, key_params, enable_cluster_autoscaler, gen1_params,
  gen2_params, construct_root_app, construct_cluster_app,
}
use arlon.ClusterApps.Laws.{
  has_param, params_of, construct_root_app_gen1, is_cluster_app, gen2_applications,
}

abbrev specs : Specs
specs = record {
  Spec = Unit;
  from_config_map = λ _. ok tt;
  api_provider = λ _. "capi";
  cluster_autoscaler_enabled = λ _. true;
  subchart_name = λ _. ok "capi-aws-eks";
  autoscaler_subchart_name = λ _. "capi-cluster-autoscaler";
  kubeconfig_secret_key_name = λ _. "value";
  valid_helm_param_keys = "region" ∷ "nodeCount" ∷ [];
  foreground_finalizer = "foreground";
}

abbrev config_map : StringMap
config_map = ("region", "us-west-2") ∷ []

or_other : Application → Result Application → Application
or_other other (ok app) = app
or_other other (err e) = other

cluster_app : Application
cluster_app = construct_cluster_app specs "argocd" "c1" "workload" "https://git" "main" "base" true

gen1_root : Application
unfolding or_other
gen1_root = or_other cluster_app (
    construct_root_app specs "argocd" "c1" "" "https://git" "main" "path" "spec" (some config_map)
      "prof" "https://mgmt" false)

gen1_done :
    construct_root_app specs "argocd" "c1" "" "https://git" "main" "path" "spec"
      (some config_map)
      "prof"
      "https://mgmt"
      false
    ≡ ok gen1_root
unfolding gen1_root or_other construct_root_app gen1_params enable_cluster_autoscaler key_params
    lookup string_eq
gen1_done = refl

region_valid : elem "region" specs.valid_helm_param_keys ≡ true
unfolding string_eq
region_valid = refl

region_filled : (read config_map "region" == "") ≡ false
unfolding lookup string_eq
region_filled = refl

construct_root_app_gen1_example :
    (gen1_root.ignore_differences ≡ machine_deployment ∷ control_plane ∷ [])
    × (has_param ("global." <> "region") (read config_map "region") (params_of gen1_root) ≡ true)
construct_root_app_gen1_example =
    construct_root_app_gen1 specs "argocd" "c1" "" "https://git" "main" "path" "spec" "prof"
      "https://mgmt" false config_map tt gen1_root "region" refl gen1_done region_valid
      region_filled

gen2_root : Application
unfolding or_other
gen2_root = or_other cluster_app (
    construct_root_app specs "argocd" "c1" "workload" "https://git" "main" "base" "" none "prof"
      "https://mgmt" true)

gen2_done :
    construct_root_app specs "argocd" "c1" "workload" "https://git" "main" "base" "" none "prof"
      "https://mgmt" true
    ≡ ok gen2_root
unfolding gen2_root or_other construct_root_app gen2_params enable_cluster_autoscaler string_eq
gen2_done = refl

gen2_applications_example :
    let app =
      construct_cluster_app specs "argocd" "c1" "workload" "https://git" "main" "base" true in
    (app.name ≡ "c1")
    × (gen2_root.name ≡ "c1" <> "-arlon")
    × (is_cluster_app app ≡ true)
    × (is_cluster_app gen2_root ≡ false)
    × (read app.labels "arlon-cluster" ≡ "c1")
    × (read gen2_root.labels "arlon-cluster" ≡ "c1")
    × (gen2_root.ignore_differences ≡ [])
gen2_applications_example =
    gen2_applications specs "argocd" "c1" "workload" "https://git" "main" "base" "prof"
      "https://mgmt" true true gen2_root gen2_done

abbrev small : ClusterSpec
small = record {
  name = "small";
  api_provider = "xplane";
  cloud_provider = "gcp";
  type = "gke";
  kubernetes_version = "v1.22";
  node_type = "n1";
  node_count = pos 3;
  master_node_count = pos 3;
  region = "europe";
  pod_cidr_block = "";
  ssh_key_name = "key";
  tags = "";
  description = "";
  cluster_autoscaler_enabled = true;
  cluster_autoscaler_min_nodes = pos 1;
  cluster_autoscaler_max_nodes = pos 9;
}

small_chart : subchart_name_from_cluster_spec small ≡ ok "xplane-gcp-gke"
unfolding subchart_name_from_cluster_spec valid_api_provider valid_cloud_provider_and_cluster_type
    lookup string_eq
small_chart = refl

construct_root_app-to_config_map_example :
    (app : Application) × (construct_root_app
        (specs_of "foreground")
        "argocd"
        "c1"
        ""
        "https://git"
        "main"
        "path"
        "small"
        (some ((to_config_map small).contents))
        "prof"
        "https://mgmt"
        false
      ≡ ok app)
    × (has_param ("tags." <> "xplane-gcp-gke") "true" (params_of app) ≡ true)
construct_root_app-to_config_map_example =
    construct_root_app-to_config_map "foreground" "argocd" "c1" "" "https://git" "main" "path"
      "small" "prof" "https://mgmt" false small "xplane-gcp-gke"
      (omega arith, omega arith, omega arith, omega arith) small_chart
