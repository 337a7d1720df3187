-- ===== src/Profiles/Calls.antt =====
-- List, Get and GetAugmented of pkg/profile/utils.go, and create.go, update.go and delete.go.
use arlon.Prelude.{
  String, ◌<>◌, Bool, true, false, not, List, [], ◌∷◌, ◌++◌, map, ◌==◌, string_eq, if◌then◌else◌,
}
use arlon.Go.Exec.{Result, ok, err, Exec, pure, ◌>>=◌, ◌>>◌, ◌>>=ᵣ◌, wrap, reads, wrapped}
use arlon.Go.Map.{read}
use arlon.Go.Path.{join}
use arlon.Go.Sets.{Sets}
use arlon.Bundles.{ListItem, check_name, get_bundles_from_profile}
use arlon.Bundles as Bundles
use arlon.ClusterSpec.{ConfigMap}
use arlon.Profiles.{
  Override, Profile, AugmentedProfile, Profiles, Changes, given_bundles,
  string_list_from_comma_separated, from_config_map, is_subset, revised,
}

-- The arguments of `create` beside the name.
pub record NewProfile : Type 0 where
  pub repo_url : String
  pub repo_base_path : String
  pub repo_revision : String
  pub bundles : List String
  pub description : String
  pub tags : String
  pub overrides : List Override

unfoldable pub profile_of : String → NewProfile → Profile
profile_of name new = record {
  name = name;
  description = new.description;
  tags = string_list_from_comma_separated new.tags;
  bundles = new.bundles;
  overrides = new.overrides;
  repo_url = new.repo_url;
  repo_path = if new.repo_url == "" then "" else join new.repo_base_path name;
  repo_revision = if new.repo_url == "" then "" else new.repo_revision;
}

-- The conversion of every listed config map; the first failure ends it.
unfoldable pub legacy_profiles : List ConfigMap → Result (List AugmentedProfile)
legacy_profiles [] = ok []
legacy_profiles (cm ∷ cms) =
    let rest = legacy_profiles cms in
    wrap "failed to convert configmap to profile: " (from_config_map cm) >>=ᵣ λ prof.
    rest >>=ᵣ λ profs. ok (record { profile = prof; legacy = true } ∷ profs)

module _ (S : Sets) (api : Profiles) where
  unfoldable pub check_names : List String → Result (Unit {0})
  check_names [] = ok tt
  check_names (name ∷ names) =
      let rest = check_names names in check_name api.secrets name >>=ᵣ λ _. rest

  unfoldable pub list : api.secrets.World → Result (List AugmentedProfile)
  list w = wrap "failed to get controller runtime client: " (api.client w) >>=ᵣ λ _.
      wrap "failed to list profiles: " (api.list w) >>=ᵣ λ profs.
      wrap "failed to get kubernetes client: " (api.kube_client w) >>=ᵣ λ _.
      wrap "failed to list configMaps: " (api.list_config_maps w) >>=ᵣ λ cms.
      legacy_profiles cms >>=ᵣ λ legacy.
      ok (map (λ p. record { profile = p; legacy = false }) profs ++ legacy)

  unfoldable pub get_profile_config_map : String → api.secrets.World → Result ConfigMap
  get_profile_config_map name w =
      if name == ""
      then err "profile name not specified"
      else wrap "failed to get profile configmap: " (api.get_config_map name w) >>=ᵣ λ cm.
          if not (read cm.labels "arlon-type" == "profile")
          then err "profile configmap does not have expected label"
          else ok cm

  unfoldable pub get : String → api.secrets.World → Result Profile
  get name w = wrap "failed to get controller runtime client: " (api.client w) >>=ᵣ λ _.
      elim (api.get name w) [
        | ok prof ↦ ok prof
        | err e ↦
            if not (api.is_not_found e)
            then err ("unexpected error looking up profile: " <> e)
            else wrap "failed to get kube client: " (api.kube_client w) >>=ᵣ λ _.
                wrap "failed to get profile from configmap: " (get_profile_config_map name w)
                >>=ᵣ λ cm. from_config_map cm
      ]

  unfoldable pub get_augmented : String → api.secrets.World → Result AugmentedProfile
  get_augmented name w = wrap "failed to get kubernetes client: " (api.kube_client w) >>=ᵣ λ _.
      elim (api.get_config_map name w) [
        | ok cm ↦ wrap "failed to convert configmap to profile: " (from_config_map cm) >>=ᵣ λ prof.
            ok (record { profile = prof; legacy = true })
        | err _ ↦ wrap "failed to get profile: " (get name w) >>=ᵣ λ prof.
            ok (record { profile = prof; legacy = false })
      ]

  abbrev pub check_subset : List String → List ListItem → Result (Unit {0})
  check_subset names existing =
      if not (is_subset S names (map (λ (b : ListItem). b.name) existing))
      then err "one or more supplied bundles don't exist"
      else ok tt

  -- A dynamic profile is written to git before the resource is.
  unfoldable pub write_new : Profile → Exec api.secrets.World (Unit {0})
  write_new p =
      if p.repo_url == ""
      then pure tt
      else wrapped "failed to get kubernetes client: " (reads api.kube_client)
        >> wrapped "failed to get bundles: "
            (reads (get_bundles_from_profile api.secrets p.bundles))
        >>= λ bundles.
            wrapped "failed to get repository credentials: " (reads (api.credentials p.repo_url))
            >>= λ creds.
                wrapped "failed to create dynamic profile in git: "
                  (api.create_in_git creds p bundles)

  unfoldable pub create : String → NewProfile → Exec api.secrets.World (Unit {0})
  unfolding write_new
  create name new =
      reads (λ _. check_names new.bundles)
      >> wrapped "failed to get controller runtime client: " (reads api.client)
      >> reads (Bundles.list api.secrets)
      >>= λ existing.
          reads (λ _. check_subset new.bundles existing)
          >> write_new (profile_of name new)
          >> wrapped "failed to create profile configmap: " (api.create (profile_of name new))

  -- The writes of a dirty profile: first to git, if it is dynamic.
  unfoldable pub write_revised_in_git : Profile → Exec api.secrets.World (Unit {0})
  write_revised_in_git p =
      if p.repo_url == ""
      then pure tt
      else wrapped "failed to get kubeclient and repository credentials: " (
          wrapped "failed to get kubernetes client: " (reads api.kube_client)
          >> wrapped "failed to get repository credentials from argocd: "
              (reads (api.credentials p.repo_url)))
        >>= λ creds.
            wrapped "failed to get bundles: "
              (reads (get_bundles_from_profile api.secrets p.bundles))
            >>= λ bundles.
                wrapped "failed to update dynamic profile in git: "
                  (api.create_in_git creds p bundles)

  unfoldable pub write_revised : Profile → Exec api.secrets.World (Unit {0})
  unfolding write_revised_in_git
  write_revised p =
      write_revised_in_git p
      >> (wrapped "failed to get new controller runtime client: " (reads api.client)
          >> wrapped "failed to update profile: " (api.update p))

  -- What `update` reads and checks before it changes anything.
  unfoldable pub profile_to_update : String → Changes → api.secrets.World → Result Profile
  profile_to_update name ch w = check_names (given_bundles ch.bundles) >>=ᵣ λ _.
      wrap "failed to list bundles: " (Bundles.list api.secrets w) >>=ᵣ λ existing.
      check_subset (given_bundles ch.bundles) existing >>=ᵣ λ _.
      wrap "failed to get augmented profile: " (get_augmented name w) >>=ᵣ λ found.
      if found.legacy then err "cannot update a legacy (gen1) profile" else ok found.profile

  unfoldable pub update : String → Changes → Exec api.secrets.World Bool
  unfolding write_revised
  update name ch = reads (profile_to_update name ch) >>= λ old.
      let done = revised S ch old in
      if not done.1 then pure false else write_revised done.0 >> pure true

  unfoldable pub delete_legacy : String → Exec api.secrets.World (Unit {0})
  delete_legacy name = wrapped "failed to delete profile: " (api.delete_config_map name)

  unfoldable pub delete : String → Exec api.secrets.World (Unit {0})
  delete name = api.delete name
