-- ===== src/Profiles/Tests.antt =====
-- A profile of one bundle, in a world that is the profile itself.
use mathlib.Core.Path.{subst}
use arlon.Prelude.{
  String, ◌≡◌, ◌≢◌, refl, ap, true, some, List, [], ◌∷◌, arith, ◌==◌, ==-refl, string_eq,
  if◌then◌else◌,
}
use arlon.Go.Exec.{Result, ok, err}
use arlon.Go.Sets.Lists.{add, subset, list_sets, list_sets-IsLawful}
use arlon.Go.Strings.{split}
use arlon.Bundles.{Secret, Secrets, is_valid_k8s_name, check_name, list_item}
use arlon.Bundles as Bundles
use arlon.Profiles.{
  Override, Profile, Profiles, Changes, merge, merge_one, comma_separated_from_string_list,
  string_list_from_comma_separated, string_lists_equivalent, is_subset, revised,
}
use arlon.Profiles.Lists.{
  LackCommas, string_list_from_comma_separated-comma_separated_from_string_list,
}
use arlon.Profiles.Merge.{value_of, value_after, value_of-merge}
use arlon.Profiles.Calls.{
  get, get_augmented, check_names, profile_to_update, write_revised, write_revised_in_git, update,
}
use arlon.Profiles.Updates.{AreNames, wanted_names, Revises, update-Revises}

abbrev two_names : List String
two_names = "calico" ∷ "guestbook" ∷ []

two_names-LackCommas : LackCommas two_names
two_names-LackCommas = (refl, (refl, tt))

two_names-one : two_names ≢ "" ∷ []
two_names-one e = absurd (ground (arith, e))

string_list_from_comma_separated-comma_separated_from_string_list_example :
    string_list_from_comma_separated (comma_separated_from_string_list two_names) ≡ two_names
string_list_from_comma_separated-comma_separated_from_string_list_example =
    string_list_from_comma_separated-comma_separated_from_string_list two_names two_names-LackCommas
      two_names-one

-- One empty name is lost.
one_empty : string_list_from_comma_separated (comma_separated_from_string_list ("" ∷ [])) ≡ []
unfolding string_list_from_comma_separated comma_separated_from_string_list string_eq split
one_empty = refl

abbrev pods : String → Override
pods value = record { bundle = "calico"; key = "pods"; value = value }

value_of-merge_example :
    value_of "calico" "pods" (merge (pods "8" ∷ pods "9" ∷ []) (pods "7" ∷ [])).0
    ≡ value_after "calico" "pods"
        (pods "8" ∷ pods "9" ∷ [])
        (value_of "calico" "pods" (pods "7" ∷ []))
value_of-merge_example = value_of-merge "calico" "pods" (pods "8" ∷ pods "9" ∷ []) (pods "7" ∷ [])

nine_pods : value_after "calico" "pods" (pods "8" ∷ pods "9" ∷ []) (some "7") ≡ some "9"
unfolding string_eq
nine_pods = refl

abbrev secret : Secret
secret = record { name = "calico"; labels = []; annotations = []; contents = [] }

abbrev secrets : Secrets
secrets = record {
  World = Profile;
  get = λ name w. ok secret;
  list = λ w. ok (secret ∷ []);
  create = λ secr w. (ok tt, w);
  update = λ secr w. (ok tt, w);
  delete = λ key w. (ok tt, w);
  is_not_found = λ e. true;
  read_file = λ file w. err "no such file";
  matches_rfc1123 = λ name. true;
}

abbrev api : Profiles
api = record {
  secrets = secrets;
  Credentials = Unit;
  client = λ w. ok tt;
  kube_client = λ w. ok tt;
  get = λ name w. if w.name == name then ok w else err "not found";
  list = λ w. ok (w ∷ []);
  create = λ p w. (ok tt, p);
  update = λ p w. (ok tt, p);
  delete = λ name w. (ok tt, w);
  get_config_map = λ name w. err "not found";
  list_config_maps = λ w. ok [];
  delete_config_map = λ name w. (ok tt, w);
  is_not_found = λ e. true;
  credentials = λ url w. ok tt;
  create_in_git = λ creds p bundles w. (ok tt, w);
}

abbrev old : Profile
old = record {
  name = "dev";
  description = "";
  tags = [];
  bundles = [];
  overrides = pods "7" ∷ [];
  repo_url = "https://git";
  repo_path = "profiles/dev";
  repo_revision = "main";
}

abbrev changes : Changes
changes = record {
  bundles = some ("calico" ∷ []);
  description = "for tests";
  tags = "dev,small";
  overrides = pods "9" ∷ [];
}

stored_profiles :
    (p : Profile) (w w' : Profile)
    → ◌≡◌ {A = Result (Unit {0}) × Profile} (ok tt, p) (ok tt, w')
    → api.get p.name w' ≡ ok p
stored_profiles p w w' h =
    subst (λ v. api.get p.name v ≡ ok p) (ap (λ (r : Result (Unit {0}) × Profile). r.1) h)
      (rw (==-refl p.name) refl)

abbrev new : Profile
new = record old {
  description = "for tests";
  tags = "dev" ∷ "small" ∷ [];
  bundles = "calico" ∷ [];
  overrides = pods "9" ∷ [];
}

updated : update list_sets api "dev" changes old ≡ (ok true, new)
unfolding update profile_to_update check_names check_name is_valid_k8s_name Bundles.list list_item
    is_subset get_augmented get revised merge merge_one comma_separated_from_string_list
    string_list_from_comma_separated string_lists_equivalent write_revised write_revised_in_git
    Bundles.get_bundles_from_profile split string_eq subset add
updated = refl

update-Revises_example :
    (prof : Profile) × (profile_to_update list_sets api "dev" changes old ≡ ok prof)
    × (AreNames (wanted_names changes.bundles prof)
        → (new' : Profile) × Revises list_sets list_sets-IsLawful changes prof new'
          × (api.get new'.name new ≡ ok new'))
update-Revises_example =
    update-Revises list_sets list_sets-IsLawful api "dev" changes old new true stored_profiles
      updated
