-- ===== src/ClusterApps/Laws.antt =====
-- What the applications of a cluster hold.
use arlon.Prelude.{
  String, ◌<>◌, ◌≡◌, refl, sym, ◌∙◌, ap, Bool, true, false, ◌&&◌, none, some, List, [], ◌∷◌, ◌++◌,
  arith, any, any-append, elem, ◌==◌, ==-refl, string_eq, if◌then◌else◌, Bool-cases, inl, inr,
}
use arlon.Go.Exec.{Result, ok, err, Result-cases}
use arlon.Go.Map.{StringMap, insert, lookup, read}
use arlon.Argo.{HelmParameter, IgnoreDifference, Application}
use arlon.ClusterApps.{
  Specs, machine_deployment, control_plane, param, key_params, enable_cluster_autoscaler,
  common_params, gen1_params, gen2_params, construct_root_app, construct_cluster_app,
}

-- Whether there is a parameter of this name and value.
abbrev pub has_param : String → String → List HelmParameter → Bool
has_param name value = any (λ (p : HelmParameter). p.name == name && p.value == value)

abbrev pub params_of : Application → List HelmParameter
params_of app = elim app.source.helm [ none ↦ [] | some params ↦ params ]

key_params-has :
    (cm : StringMap) (key : String) (keys : List String)
    → elem key keys ≡ true
    → (read cm key == "") ≡ false
    → has_param ("global." <> key) (read cm key) (key_params cm keys) ≡ true
unfolding key_params
key_params-has cm key [] e h = absurd (ground arith)
key_params-has cm key (k ∷ keys) e h = elim (Bool-cases (k == key)) [
  | inl same ↦
      let p : k ≡ key = ground (arith, same) in
      rw (p) (ground (arith, h, ==-refl ("global." <> key), ==-refl (read cm key)))
  | inr other ↦ ground (arith, key_params-has cm key keys, other)
]

first_of : Result (List HelmParameter × List IgnoreDifference) → List HelmParameter
first_of (ok r) = r.0
first_of (err e) = []

pub has_param_left :
    (name value : String) (xs ys : List HelmParameter)
    → has_param name value xs ≡ true
    → has_param name value (xs ++ ys) ≡ true
has_param_left name value xs ys h =
    ground (arith, h, any-append (λ (p : HelmParameter). p.name == name && p.value == value) xs ys)

pub has_param_right :
    (name value : String) (xs ys : List HelmParameter)
    → has_param name value ys ≡ true
    → has_param name value (xs ++ ys) ≡ true
has_param_right name value xs ys h =
    ground (arith, h, any-append (λ (p : HelmParameter). p.name == name && p.value == value) xs ys)

module _ (S : Specs) where
  gen1_diffs :
      (clust_name inner mgmt_url : String) (cm : StringMap) (cs : S.Spec)
      (r : List HelmParameter × List IgnoreDifference)
      → gen1_params S clust_name inner mgmt_url cm cs ≡ ok r
      → r.1 ≡ (
          if S.cluster_autoscaler_enabled cs
          then machine_deployment ∷ control_plane ∷ []
          else control_plane ∷ [])
  unfolding gen1_params enable_cluster_autoscaler
  gen1_diffs clust_name inner mgmt_url cm cs r e = ground arith

  gen2_diffs :
      (clust_name inner mgmt_url : String) (cas : Bool)
      (r : List HelmParameter × List IgnoreDifference)
      → gen2_params S clust_name inner mgmt_url cas ≡ ok r
      → r.1 ≡ []
  unfolding gen2_params enable_cluster_autoscaler
  gen2_diffs clust_name inner mgmt_url cas r e = ground arith

  -- The two lists of parameters that there can be.
  keys_by_cases :
      (clust_name inner mgmt_url : String) (cm : StringMap) (cs : S.Spec)
      (r : List HelmParameter × List IgnoreDifference) (name : String)
      → gen1_params S clust_name inner mgmt_url cm cs ≡ ok r
      → S.subchart_name cs ≡ ok name
      → (P : List HelmParameter → Type 0)
      → let tagged =
          (common_params S clust_name inner (S.api_provider cs) mgmt_url
            ++ key_params cm S.valid_helm_param_keys)
          ++ param ("tags." <> name) "true" ∷ [] in
        P tagged
        → P (
            tagged ++ param ("tags." <> S.autoscaler_subchart_name (S.api_provider cs)) "true" ∷ [])
        → P r.0
  unfolding gen1_params enable_cluster_autoscaler first_of
  keys_by_cases clust_name inner mgmt_url cm cs r name e n P two three =
      elim (Bool-cases (S.cluster_autoscaler_enabled cs)) [
        | inr c ↦
            rw
              (ap (λ (x : Result (List HelmParameter × List IgnoreDifference)). first_of x)
                (rw (gen1_params, n, c) at e))
              at two
        | inl c ↦ elim (Bool-cases (S.autoscaler_subchart_name (S.api_provider cs) == "")) [
          | inl none_ ↦ absurd (let k = rw (gen1_params, n, c, none_) at e in ground (arith, k))
          | inr found ↦ rw (ap first_of (rw (gen1_params, n, c, found) at e)) at three
        ]
      ]

  gen1_keys :
      (clust_name inner mgmt_url : String) (cm : StringMap) (cs : S.Spec)
      (r : List HelmParameter × List IgnoreDifference) (key : String)
      → gen1_params S clust_name inner mgmt_url cm cs ≡ ok r
      → elem key S.valid_helm_param_keys ≡ true
      → (read cm key == "") ≡ false
      → has_param ("global." <> key) (read cm key) r.0 ≡ true
  unfolding gen1_params enable_cluster_autoscaler
  gen1_keys clust_name inner mgmt_url cm cs r key e valid filled =
      elim (Result-cases (S.subchart_name cs)) [
        | inr (_, n) ↦ absurd (ground (arith, n, e))
        | inl (name, n) ↦
            let base = common_params S clust_name inner (S.api_provider cs) mgmt_url in
            let keys = key_params cm S.valid_helm_param_keys in
            let tag : HelmParameter = param ("tags." <> name) "true" in
            let scale : HelmParameter =
              param ("tags." <> S.autoscaler_subchart_name (S.api_provider cs)) "true" in
            let one =
              has_param_right ("global." <> key) (read cm key) base keys
                (key_params-has cm key S.valid_helm_param_keys valid filled) in
            let two =
              has_param_left ("global." <> key) (read cm key) (base ++ keys) (tag ∷ []) one in
            let three =
              has_param_left ("global." <> key) (read cm key) ((base ++ keys) ++ tag ∷ [])
                (scale ∷ []) two in
            keys_by_cases clust_name inner mgmt_url cm cs r name e n
              (λ l. has_param ("global." <> key) (read cm key) l ≡ true) two three
      ]

  -- The root application of a cluster of the first generation ignores what the cluster autoscaler
  -- changes exactly if the autoscaler is on, and the control plane's version always; and it passes
  -- on every valid key that the config map has a value for. The config map holds a specification.
  pub construct_root_app_gen1 :
      (ns clust_name inner url branch path spec_name prof mgmt_url : String) (cas : Bool)
      (cm : StringMap) (cs : S.Spec) (app : Application) (key : String)
      → S.from_config_map cm ≡ ok cs
      → construct_root_app S ns clust_name inner url branch path spec_name
          (some cm)
          prof
          mgmt_url
          cas
        ≡ ok app
      → elem key S.valid_helm_param_keys ≡ true
      → (read cm key == "") ≡ false
      → (app.ignore_differences ≡ (
          if S.cluster_autoscaler_enabled cs
          then machine_deployment ∷ control_plane ∷ []
          else control_plane ∷ []))
        × (has_param ("global." <> key) (read cm key) (params_of app) ≡ true)
  unfolding construct_root_app
  construct_root_app_gen1 ns clust_name inner url branch path spec_name prof mgmt_url cas cm cs app
        key spec done valid filled =
      elim (Result-cases (gen1_params S clust_name inner mgmt_url cm cs)) [
        | inr (_, e) ↦
            absurd (let k = rw (construct_root_app, spec, e) at done in ground (arith, k))
        | inl (r, e) ↦
            let k = rw (construct_root_app, spec, e) at done in
            let diffs : r.1 ≡ app.ignore_differences = ground (arith, k) in
            let params : r.0 ≡ params_of app = ground (arith, k) in
            (
              sym diffs ∙ gen1_diffs clust_name inner mgmt_url cm cs r e,
              ap (has_param ("global." <> key) (read cm key)) (sym params)
                  ∙ gen1_keys clust_name inner mgmt_url cm cs r key e valid filled,
            )
      ]

abbrev app_of : Application → Result Application → Application
app_of other (ok app) = app
app_of other (err e) = other

abbrev pub is_cluster_app : Application → Bool
is_cluster_app app =
    read app.labels "managed-by" == "arlon" && read app.labels "arlon-type" == "cluster-app"

module _ (S : Specs) where
  -- Of the two applications of a cluster of the second generation only the cluster application is
  -- one that the selector of the reconciliation picks, and it has the cluster's name; both are
  -- labelled with the cluster's name. The root application ignores no differences, also when the
  -- cluster autoscaler is on.
  pub gen2_applications :
      (ns clust_name inner url branch path prof mgmt_url : String) (cas overridden : Bool)
      (root : Application)
      → construct_root_app S ns clust_name inner url branch path "" none prof mgmt_url cas ≡ ok root
      → let app = construct_cluster_app S ns clust_name inner url branch path overridden in
        (app.name ≡ clust_name)
        × (root.name ≡ clust_name <> "-arlon")
        × (is_cluster_app app ≡ true)
        × (is_cluster_app root ≡ false)
        × (read app.labels "arlon-cluster" ≡ clust_name)
        × (read root.labels "arlon-cluster" ≡ clust_name)
        × (root.ignore_differences ≡ [])
  unfolding construct_root_app construct_cluster_app insert lookup string_eq
  gen2_applications ns clust_name inner url branch path prof mgmt_url cas overridden root done =
      elim (Result-cases (gen2_params S clust_name inner mgmt_url cas)) [
        | inr (_, e) ↦ absurd (let k = rw (construct_root_app, e) at done in ground (arith, k))
        | inl (r, e) ↦
            let k = rw (construct_root_app, e) at done in
            let p = ap (app_of root) k in
            (
              refl,
              sym (ap (λ (x : Application). x.name) p),
              refl,
              sym (ap is_cluster_app p),
              refl,
              sym (ap (λ (x : Application). read x.labels "arlon-cluster") p),
              sym (ap (λ (x : Application). x.ignore_differences) p)
                  ∙ gen2_diffs S clust_name inner mgmt_url cas r e,
            )
      ]
