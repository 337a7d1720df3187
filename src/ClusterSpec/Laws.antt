-- ===== src/ClusterSpec/Laws.antt =====
-- What the calls on cluster specifications leave behind.
use arlon.Prelude.{String, ◌<>◌, ◌≡◌, refl, inl, inr, true, arith, ◌==◌, string_eq, Bool-cases}
use arlon.Go.Exec.{ok, Exec, Result-cases, wrapped-eq-ok}
use arlon.Go.Map.{lookup}
use arlon.ClusterSpec.{
  ClusterSpec, ConfigMap, to_config_map, subchart_name, subchart_name_from_cluster_spec,
}
use arlon.ClusterSpec.Values.{
  valid_api_provider, valid_cloud_provider_and_cluster_type, is_one_of, validate_region_by_provider,
}
use arlon.ClusterSpec.Calls.{ConfigMaps, get, check_absent, create}
use arlon.ClusterSpec.RoundTrip.{InRange, from_config_map-to_config_map}

-- What such a call has written is what the next read gives.
abbrev pub Stores : (api : ConfigMaps) → (ConfigMap → Exec api.World (Unit {0})) → Type 0
Stores api call =
    (cm : ConfigMap) (w w' : api.World) → call cm w ≡ (ok tt, w') → api.get cm.name w' ≡ ok cm

get_back :
    (api : ConfigMaps) (cs : ClusterSpec) (w : api.World)
    → InRange cs
    → api.get cs.name w ≡ ok (to_config_map cs)
    → get api cs.name w ≡ ok cs
unfolding get
get_back api cs w fits h = rw (get, h) (from_config_map-to_config_map cs fits)

module _ (api : ConfigMaps) where
  abbrev bare : ClusterSpec → ClusterSpec
  bare cs = record cs { pod_cidr_block = "" }

  create_parts :
      (cs : ClusterSpec) (w w' : api.World)
      → create api cs w ≡ (ok tt, w')
      → (valid_api_provider cs.api_provider ≡ ok tt)
        × (valid_cloud_provider_and_cluster_type cs.cloud_provider cs.type ≡ ok tt)
        × (validate_region_by_provider api.regions cs.cloud_provider cs.region ≡ ok tt)
        × (check_absent api cs.name w ≡ ok tt)
        × (api.create (to_config_map (bare cs)) w ≡ (ok tt, w'))
  unfolding create
  create_parts cs w w' h = elim (Result-cases (valid_api_provider cs.api_provider)) [
    | inr (_, e) ↦ absurd (let k = rw (create, e) at h in ground (arith, k))
    | inl (tt, e) ↦
        elim (Result-cases (valid_cloud_provider_and_cluster_type cs.cloud_provider cs.type)) [
          | inr (_, f) ↦ absurd (let k = rw (create, e, f) at h in ground (arith, k))
          | inl (tt, f) ↦
              elim (Result-cases
                (validate_region_by_provider api.regions cs.cloud_provider cs.region)) [
                  | inr (_, g) ↦ absurd (let k = rw (create, e, f, g) at h in ground (arith, k))
                  | inl (tt, g) ↦ elim (Result-cases (check_absent api cs.name w)) [
                    | inr (_, c) ↦
                        absurd (let k = rw (create, e, f, g, c) at h in ground (arith, k))
                    | inl (tt, c) ↦ (
                      e,
                      f,
                      g,
                      c,
                      wrapped-eq-ok "failed to create clusterspec configmap: "
                          (api.create (to_config_map (bare cs))) w (rw (create, e, f, g, c) at h),
                    )
                  ]
                ]
        ]
  ]

  region_lem :
      (cloud region : String)
      → validate_region_by_provider api.regions cloud region ≡ ok tt
      → (cloud ≡ "aws") × (is_one_of region api.regions ≡ true)
  unfolding validate_region_by_provider lookup is_one_of
  region_lem cloud region h = elim (Bool-cases ("aws" == cloud)) [
    | inl e ↦ (
      ground (arith, e),
      let k = rw (validate_region_by_provider, lookup, e) at h in ground (arith, k),
    )
    | inr e ↦ absurd (let k = rw (validate_region_by_provider, lookup, e) at h in ground (arith, k))
  ]

  subchart_name_lem :
      (cs : ClusterSpec)
      → valid_api_provider cs.api_provider ≡ ok tt
      → valid_cloud_provider_and_cluster_type cs.cloud_provider cs.type ≡ ok tt
      → subchart_name_from_cluster_spec cs
        ≡ ok (cs.api_provider <> ("-" <> (cs.cloud_provider <> ("-" <> cs.type))))
  unfolding subchart_name_from_cluster_spec
  subchart_name_lem cs e f = rw (subchart_name_from_cluster_spec, e, f) refl

  -- When `create` succeeds, on an API whose creations are read back, and the four numbers fit in
  -- 64 bits: the region is one of AWS's and the cloud provider is `aws`; the name read as not
  -- found before; reading the name now gives the specification, without a pod CIDR block; and its
  -- config map has a subchart, named after API provider, cloud provider and type.
  pub create-get :
      (cs : ClusterSpec) (w w' : api.World)
      → InRange cs
      → Stores api api.create
      → create api cs w ≡ (ok tt, w')
      → (is_one_of cs.region api.regions ≡ true)
        × (cs.cloud_provider ≡ "aws")
        × (check_absent api cs.name w ≡ ok tt)
        × (get api cs.name w' ≡ ok (record cs { pod_cidr_block = "" }))
        × (subchart_name (to_config_map (record cs { pod_cidr_block = "" }))
            ≡ ok (cs.api_provider <> ("-" <> (cs.cloud_provider <> ("-" <> cs.type)))))
  unfolding subchart_name to_config_map
  create-get cs w w' fits stores done =
      let (e, f, g, c, written) = create_parts cs w w' done in
      let (aws, region) = region_lem cs.cloud_provider cs.region g in
      (
        region,
        aws,
        c,
        get_back api (bare cs) w' fits (stores (to_config_map (bare cs)) w w' written),
        rw (subchart_name, from_config_map-to_config_map (bare cs) fits)
            (subchart_name_lem (bare cs) e f),
      )
