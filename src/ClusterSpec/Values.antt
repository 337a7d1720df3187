-- ===== src/ClusterSpec/Values.antt =====
-- pkg/clusterspec/utils.go: the values that a cluster specification may have.
use arlon.Prelude.{
  String, ◌<>◌, ◌≡◌, refl, Bool, true, false, not, Option, none, some, List, [], ◌∷◌, map, ◌==◌,
  string_eq, if◌then◌else◌,
}
use arlon.Go.Exec.{Result, ok, err}
use arlon.Go.Map.{Map, lookup}
use arlon.Go.Sort.{sort, insort, string_leb}

-- A `map[string]bool` as a set: a missing key reads false.
abbrev or_false : Option Bool → Bool
or_false none = false
or_false (some b) = b

abbrev pub holds : Map Bool → String → Bool
holds m k = or_false (lookup k m)

abbrev pub valid_api_providers : Map Bool
valid_api_providers = ("capi", true) ∷ ("xplane", true) ∷ []

abbrev pub valid_cloud_providers : Map Bool
valid_cloud_providers = ("aws", true) ∷ ("gcp", true) ∷ ("azure", true) ∷ []

abbrev pub valid_cluster_types_by_cloud : Map (Map Bool)
valid_cluster_types_by_cloud =
    ("aws", ("kubeadm", true) ∷ ("eks", true) ∷ [])
    ∷ ("gcp", ("kubeadm", true) ∷ ("gke", true) ∷ [])
    ∷ ("azure", ("kubeadm", true) ∷ ("aks", true) ∷ [])
    ∷ []

abbrev pub kubeconfig_secret_key_name_by_api_provider : Map String
kubeconfig_secret_key_name_by_api_provider = ("capi", "value") ∷ ("xplane", "kubeconfig") ∷ []

abbrev or_nil {ℓ} : {A : Type ℓ} → Option (List A) → List A
or_nil none = []
or_nil (some l) = l

abbrev pub cluster_types_of : String → Map Bool
cluster_types_of cloud = or_nil (lookup cloud valid_cluster_types_by_cloud)

-- The loop over the sorted keys: `sep` is empty before the first.
unfoldable pub join_with : String → List String → String
join_with sep [] = ""
join_with sep (key ∷ keys) = sep <> (key <> join_with "|" keys)

unfoldable pub valid_values : Map Bool → String
valid_values vals = join_with "" (sort (map (λ e. e.0) vals))

unfoldable pub valid_api_provider : String → Result (Unit {0})
valid_api_provider provider =
    if not (holds valid_api_providers provider)
    then err ("invalid api provider, the valid values are: " <> valid_values valid_api_providers)
    else ok tt

unfoldable pub valid_cloud_provider_and_cluster_type : String → String → Result (Unit {0})
valid_cloud_provider_and_cluster_type cloud type =
    if not (holds valid_cloud_providers cloud)
    then err
        ("invalid cloud provider, the valid values are: " <> valid_values valid_cloud_providers)
    else if not (holds (cluster_types_of cloud) type)
    then err
        ("invalid cluster type, the valid values are: " <> valid_values (cluster_types_of cloud))
    else ok tt

unfoldable pub is_one_of : String → List String → Bool
is_one_of val [] = false
is_one_of val (value ∷ values) =
    let rest = is_one_of val values in if val == value then true else rest

-- `%v` of a slice.
show_values : List String → String
show_values [] = ""
show_values (v ∷ []) = v
show_values (v ∷ w ∷ vs) = v <> (" " <> show_values (w ∷ vs))

-- The regions of AWS are constants of its SDK.
module _ (valid_regions_aws : List String) where
  abbrev pub valid_regions_by_provider : Map (List String)
  valid_regions_by_provider = ("aws", valid_regions_aws) ∷ []

  abbrev pub valid_regions_of : String → List String
  valid_regions_of provider = or_nil (lookup provider valid_regions_by_provider)

  unfoldable pub validate_region_by_provider : String → String → Result (Unit {0})
  unfolding show_values
  validate_region_by_provider provider region =
      if not (is_one_of region (valid_regions_of provider))
      then err (
          "invalid region "
          <> (region
              <> (" for "
                  <> (provider
                      <> (", valid values are: ["
                          <> (show_values (valid_regions_of provider) <> "]"))))))
      else ok tt

valid_values_example : valid_values valid_cloud_providers ≡ "aws|azure|gcp"
unfolding valid_values join_with sort insort string_leb
valid_values_example = refl
