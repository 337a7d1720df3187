-- ===== src/Profiles.antt =====
-- pkg/profile: profiles, which name bundles and overrides of their parameters. A profile is a
-- resource of Arlon, or, if it is a legacy one, a config map.
pub mod Lists
pub mod Merge
pub mod Calls
mod Updates
mod Tests
use arlon.Prelude.{
  String, ◌<>◌, Bool, true, false, not, ◌&&◌, ◌||◌, Option, none, some, List, [], ◌∷◌, ◌++◌, map,
  ◌==◌, string_eq, if◌then◌else◌,
}
use arlon.Go.Exec.{Result, ok, err, Exec, pure, ◌>>=◌, ◌>>◌, ◌>>=ᵣ◌, wrap, reads, wrapped}
use arlon.Go.Map.{StringMap, lookup, read}
use arlon.Go.Path.{join}
use arlon.Go.Sets.{Sets, from_slice}
use arlon.Go.Strings.{comma, split}
use arlon.Bundles.{Secrets, Bundle, ListItem, check_name, get_bundles_from_profile}
use arlon.Bundles as Bundles
use arlon.ClusterSpec.{ConfigMap}

pub record Override : Type 0 where
  pub bundle : String
  pub key : String
  pub value : String

pub record Profile : Type 0 where
  pub name : String
  pub description : String
  pub tags : List String
  pub bundles : List String
  pub overrides : List Override
  pub repo_url : String
  pub repo_path : String
  pub repo_revision : String

pub record AugmentedProfile : Type 0 where
  pub profile : Profile
  pub legacy : Bool

-- The calls of Kubernetes on profiles and config maps. The client is made from a configuration by
-- `client`; `credentials` looks up those of a repository; `create_in_git` writes a dynamic profile.
pub record Profiles : Type 1 where
  pub secrets : Secrets
  pub Credentials : Type 0
  pub client : secrets.World → Result (Unit {0})
  pub kube_client : secrets.World → Result (Unit {0})
  pub get : String → secrets.World → Result Profile
  pub list : secrets.World → Result (List Profile)
  pub create : Profile → Exec secrets.World (Unit {0})
  pub update : Profile → Exec secrets.World (Unit {0})
  pub delete : String → Exec secrets.World (Unit {0})
  pub get_config_map : String → secrets.World → Result ConfigMap
  pub list_config_maps : secrets.World → Result (List ConfigMap)
  pub delete_config_map : String → Exec secrets.World (Unit {0})
  pub is_not_found : String → Bool
  pub credentials : String → secrets.World → Result Credentials
  pub create_in_git : Credentials → Profile → List Bundle → Exec secrets.World (Unit {0})

unfoldable pub string_list_from_comma_separated : String → List String
string_list_from_comma_separated cs = let parts = split comma cs in if cs == "" then [] else parts

-- The loop puts a comma before every item but the first.
abbrev pub items : List String → String
items [] = ""
items (item ∷ rest) = "," <> (item <> items rest)

unfoldable pub comma_separated_from_string_list : List String → String
comma_separated_from_string_list [] = ""
comma_separated_from_string_list (item ∷ rest) = item <> items rest

unfoldable pub from_config_map : ConfigMap → Result Profile
from_config_map cm =
    if not (read cm.labels "arlon-type" == "profile")
    then err ("config map " <> (cm.name <> " is missing arlon-type label"))
    else ok (record {
      name = cm.name;
      description = read cm.contents "description";
      tags = string_list_from_comma_separated (read cm.contents "tags");
      bundles = string_list_from_comma_separated (read cm.contents "bundles");
      overrides = [];
      repo_url = read cm.contents "repo-url";
      repo_path = read cm.contents "repo-path";
      repo_revision = read cm.contents "repo-branch";
    })

-- One new override: it replaces the value of the first one of its bundle and key, or else is
-- added at the end. Whether something has changed comes with the list.
unfoldable pub merge_one : Override → List Override → List Override × Bool
merge_one o [] = (o ∷ [], true)
merge_one o (x ∷ xs) =
    let rest = merge_one o xs in
    if o.bundle == x.bundle && o.key == x.key
    then (if not (o.value == x.value)
        then (record x { value = o.value } ∷ xs, true)
        else (x ∷ xs, false))
    else (x ∷ rest.0, rest.1)

unfoldable pub merge : List Override → List Override → List Override × Bool
unfolding merge_one
merge [] old = (old, false)
merge (o ∷ os) old =
    let first = merge_one o old in let rest = merge os first.0 in (rest.0, first.1 || rest.1)

-- `MakeOverridesMap`, read at a bundle: its overrides, in order.
unfoldable pub overrides_of : String → List Override → List (String × String)
overrides_of bundle [] = []
overrides_of bundle (o ∷ os) =
    let rest = overrides_of bundle os in
    if o.bundle == bundle then (o.key, o.value) ∷ rest else rest

-- What `update` is given; no bundles, where the pointer is nil, leave them as they are.
pub record Changes : Type 0 where
  pub bundles : Option (List String)
  pub description : String
  pub tags : String
  pub overrides : List Override

abbrev pub given_bundles : Option (List String) → List String
given_bundles none = []
given_bundles (some names) = names

module _ (S : Sets) where
  unfoldable pub string_lists_equivalent : List String → List String → Bool
  string_lists_equivalent sl1 sl2 = S.equal (from_slice S sl1) (from_slice S sl2)

  unfoldable pub is_subset : List String → List String → Bool
  is_subset sub super = S.subset (from_slice S sub) (from_slice S super)

  abbrev pub with_description : String → Profile → Profile × Bool
  with_description description p =
      if not (description == "") && not (description == p.description)
      then (record p { description = description }, true)
      else (p, false)

  abbrev pub with_tags : String → Profile → Profile × Bool
  with_tags tags p =
      if not (tags == "")
        && not (string_lists_equivalent (string_list_from_comma_separated tags) p.tags)
      then (record p { tags = string_list_from_comma_separated tags }, true)
      else (p, false)

  abbrev pub wanted_bundles : Option (List String) → Profile → String
  wanted_bundles none p = comma_separated_from_string_list p.bundles
  wanted_bundles (some names) p = comma_separated_from_string_list names

  abbrev pub with_bundles : Option (List String) → Profile → Profile × Bool
  with_bundles names p =
      let wanted = string_list_from_comma_separated (wanted_bundles names p) in
      if not (string_lists_equivalent wanted p.bundles)
      then (record p { bundles = wanted }, true)
      else (p, false)

  abbrev pub with_overrides : List Override → Profile → Profile × Bool
  with_overrides os p =
      let merged = merge os p.overrides in (record p { overrides = merged.0 }, merged.1)

  -- The profile as `update` changes it, and whether it is dirty.
  unfoldable pub revised : Changes → Profile → Profile × Bool
  revised ch p =
      let described = with_description ch.description p in
      let tagged = with_tags ch.tags described.0 in
      let bundled = with_bundles ch.bundles tagged.0 in
      let overridden = with_overrides ch.overrides bundled.0 in
      (overridden.0, described.1 || (tagged.1 || (bundled.1 || overridden.1)))
