-- ===== src/ClusterApps/FromSpec.antt =====
-- The applications of a cluster with the cluster specifications of pkg/clusterspec.
use arlon.Prelude.{
  String, ◌<>◌, ◌≡◌, refl, inl, inr, Bool, true, false, some, List, [], ◌∷◌, ◌++◌, arith, ◌==◌,
  string_eq, differs, ==-refl, Bool-cases,
}
use arlon.Go.Exec.{ok, Result-cases}
use arlon.Go.Strings.{append_filled}
use arlon.Go.Map.{StringMap, read}
use arlon.Argo.{Application, HelmParameter, IgnoreDifference}
use arlon.ClusterSpec.{
  ClusterSpec, from_config_map, to_config_map, subchart_name_from_cluster_spec,
  autoscaler_subchart_name_from_api_provider, valid_helm_param_keys,
}
use arlon.ClusterSpec.Values.{kubeconfig_secret_key_name_by_api_provider}
use arlon.ClusterSpec.RoundTrip.{InRange, from_config_map-to_config_map}
use arlon.ClusterApps.{
  Specs, control_plane, machine_deployment, common_params, key_params, construct_root_app,
  gen1_params, enable_cluster_autoscaler, param,
}
use arlon.ClusterApps.Laws.{has_param, has_param_left, has_param_right, params_of}

abbrev pub specs_of : String → Specs
specs_of finalizer = record {
  Spec = ClusterSpec;
  from_config_map = λ m. from_config_map (record { name = ""; labels = []; contents = m });
  api_provider = λ cs. cs.api_provider;
  cluster_autoscaler_enabled = λ cs. cs.cluster_autoscaler_enabled;
  subchart_name = subchart_name_from_cluster_spec;
  autoscaler_subchart_name = autoscaler_subchart_name_from_api_provider;
  kubeconfig_secret_key_name = read kubeconfig_secret_key_name_by_api_provider;
  valid_helm_param_keys = valid_helm_param_keys;
  foreground_finalizer = finalizer;
}

autoscaler_named :
    (provider : String) → (autoscaler_subchart_name_from_api_provider provider == "") ≡ false
unfolding autoscaler_subchart_name_from_api_provider
autoscaler_named provider = elim (Bool-cases ((provider <> "-cluster-autoscaler") == "")) [
  | inr e ↦ e
  | inl e ↦ absurd (
      append_filled provider "-cluster-autoscaler"
        (differs "-cluster-autoscaler" "" (unfold string_eq in refl)) (ground (arith, e)))
]

spec_of_contents :
    (finalizer : String) (cs : ClusterSpec)
    → InRange cs
    → (specs_of finalizer).from_config_map ((to_config_map cs).contents)
      ≡ ok (record cs { name = "" })
unfolding from_config_map to_config_map
spec_of_contents finalizer cs fits = from_config_map-to_config_map (record cs { name = "" }) fits

module _ (finalizer clust_name inner mgmt_url : String) (cm : StringMap) (cs : ClusterSpec)
    (chart : String) (named : subchart_name_from_cluster_spec cs ≡ ok chart) where
  abbrev tagged : List HelmParameter
  tagged =
      (common_params (specs_of finalizer) clust_name inner cs.api_provider mgmt_url
        ++ key_params cm valid_helm_param_keys)
      ++ param ("tags." <> chart) "true" ∷ []

  abbrev autoscaler_tag : List HelmParameter
  autoscaler_tag =
      param ("tags." <> autoscaler_subchart_name_from_api_provider cs.api_provider) "true" ∷ []

  tagged_chart : has_param ("tags." <> chart) "true" tagged ≡ true
  tagged_chart =
      has_param_right ("tags." <> chart) "true"
        (common_params (specs_of finalizer) clust_name inner cs.api_provider mgmt_url
          ++ key_params cm valid_helm_param_keys)
        (param ("tags." <> chart) "true" ∷ [])
        (ground (arith, ==-refl ("tags." <> chart), ==-refl {A = String} "true"))

  gen1_total :
      (r : List HelmParameter × List IgnoreDifference) × (gen1_params
          (specs_of finalizer)
          clust_name
          inner
          mgmt_url
          cm
          cs
        ≡ ok r)
      × (has_param ("tags." <> chart) "true" r.0 ≡ true)
  unfolding gen1_params enable_cluster_autoscaler
  gen1_total = elim (Bool-cases cs.cluster_autoscaler_enabled) [
    | inr off ↦ ((tagged, control_plane ∷ []), rw (gen1_params, named, off) refl, tagged_chart)
    | inl on ↦ (
      (tagged ++ autoscaler_tag, machine_deployment ∷ control_plane ∷ []),
      rw (gen1_params, named, on, enable_cluster_autoscaler, autoscaler_named cs.api_provider) refl,
      has_param_left ("tags." <> chart) "true" tagged autoscaler_tag tagged_chart,
    )
  ]

-- For a specification whose four numbers fit in 64 bits and that has a subchart, as those that
-- pkg/clusterspec's Create makes have, the construction of the root application from its config
-- map does not fail, with the cluster autoscaler on or off, and the application enables the
-- subchart by a Helm parameter.
pub construct_root_app-to_config_map :
    (finalizer ns clust_name inner url branch path spec_name prof mgmt_url : String) (cas : Bool)
    (cs : ClusterSpec) (chart : String)
    → InRange cs
    → subchart_name_from_cluster_spec cs ≡ ok chart
    → (app : Application) × (construct_root_app
          (specs_of finalizer)
          ns
          clust_name
          inner
          url
          branch
          path
          spec_name
          (some ((to_config_map cs).contents))
          prof
          mgmt_url
          cas
        ≡ ok app)
      × (has_param ("tags." <> chart) "true" (params_of app) ≡ true)
unfolding construct_root_app subchart_name_from_cluster_spec
construct_root_app-to_config_map finalizer ns clust_name inner url branch path spec_name prof
      mgmt_url cas cs chart fits named =
    let cm = (to_config_map cs).contents in
    let (r, e, has) =
      gen1_total finalizer clust_name inner mgmt_url cm (record cs { name = "" }) chart named in
    elim (Result-cases (
      construct_root_app (specs_of finalizer) ns clust_name inner url branch path spec_name
        (some cm) prof mgmt_url cas)) [
          | inr (_, failed) ↦ absurd (
              let k = rw (construct_root_app, spec_of_contents finalizer cs fits, e) at failed in
              ground (arith, k))
          | inl (app, done) ↦
              let k = rw (construct_root_app, spec_of_contents finalizer cs fits, e) at done in
              let params : r.0 ≡ params_of app = ground (arith, k) in
              (app, done, rw (params) at has)
        ]
