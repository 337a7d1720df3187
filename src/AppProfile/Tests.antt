-- ===== src/AppProfile/Tests.antt =====
-- Runs over the API in memory, and the theorems at concrete data.
use arlon.Prelude.{
  String, ◌≡◌, ◌≢◌, refl, false, Option, none, some, List, [], ◌∷◌, arith, string_eq,
}
use arlon.Go.Exec.{ok, err}
use arlon.Go.Map.{lookup, insert, erase}
use arlon.Go.Strings.{split}
use arlon.Go.Sets.Lists.{list_sets, list_sets-IsLawful, add, subset}
use arlon.Go.Loop.{for_each}
use arlon.Argo.{Application, AppSet}
use arlon.AppProfile.External.{Api}
use arlon.AppProfile.{
  arlon_cluster_map, update_profile_to_clusters_map, reconcile_cluster, check_app_names,
  refresh_status, reconcile_profile, read_elements, reconcile_app, cluster_loop, profile_loop,
  app_loop, reconcile_lists, reconcile_everything,
}
use arlon.AppProfile.Apps.{is_plain}
use arlon.AppProfile.Memory.{
  memory_api, memory_api-IsLawful, unmarshal, unmarshal-Decodes, Store, replace,
}
use arlon.AppProfile.Everything.{Snapshot, reconcile_everything_unread}
use arlon.AppProfile.Convergence.{
  IsOrderly, Reconciled, reconcile_everything-Reconciled, reconcile_everything_twice,
}

abbrev key : String
key = "arlon.io/profiles"

abbrev arlon_app : String → String → Application
arlon_app name profiles = record {
  name = name;
  namespace = "argocd";
  labels = [];
  annotations = some ((key, profiles) ∷ []);
  finalizers = [];
  deleting = false;
  source = record { repo_url = ""; path = ""; target_revision = ""; helm = none; kustomize = none };
  server = "";
  destination_namespace = "";
  sync_policy = none;
  ignore_differences = [];
}

abbrev app_set : String → Option (List String) → AppSet
app_set name elements = record {
  name = name;
  namespace = "argocd";
  labels = none;
  generators = (record { elements = elements }) ∷ [];
}

abbrev pub before : Store
before = record {
  clusters =
      (record { name = "c1"; server = "https://c1"; annotations = none })
      ∷ (record { name = "ext"; server = "https://ext"; annotations = some ((key, "p2") ∷ []) })
      ∷ [];
  arlon = arlon_app "c1" "p1,p2" ∷ [];
  apps = app_set "web" (some []) ∷ app_set "db" none ∷ [];
  profiles =
      (record {
        name = "p1";
        app_names = "web" ∷ "gone" ∷ [];
        health = "healthy";
        invalid_app_names = [];
      })
      ∷ (record { name = "p2"; app_names = "db" ∷ []; health = "healthy"; invalid_app_names = [] })
      ∷ [];
}

abbrev pub after : Store
after = record {
  clusters =
      (record { name = "c1"; server = "https://c1"; annotations = some ((key, "p1,p2") ∷ []) })
      ∷ (record { name = "ext"; server = "https://ext"; annotations = some ((key, "p2") ∷ []) })
      ∷ [];
  arlon = arlon_app "c1" "p1,p2" ∷ [];
  apps =
      app_set "web" (some ("{\"cluster_name\":\"c1\", \"cluster_server\":\"https://c1\"}" ∷ []))
      ∷ app_set "db" none
      ∷ [];
  profiles =
      (record {
        name = "p1";
        app_names = "web" ∷ "gone" ∷ [];
        health = "degraded";
        invalid_app_names = "gone" ∷ [];
      })
      ∷ (record { name = "p2"; app_names = "db" ∷ []; health = "healthy"; invalid_app_names = [] })
      ∷ [];
}

pub run : reconcile_everything list_sets memory_api before ≡ (ok tt, after)
unfolding reconcile_everything reconcile_lists cluster_loop profile_loop app_loop for_each
    arlon_cluster_map reconcile_cluster reconcile_profile reconcile_app
    update_profile_to_clusters_map check_app_names refresh_status read_elements unmarshal replace
    add subset split lookup insert erase string_eq
run = refl

pub before_snapshot : Snapshot memory_api before
before_snapshot = record {
  clusters = before.clusters;
  arlon = before.arlon;
  apps = before.apps;
  profiles = before.profiles;
  cluster_client = refl;
  application_client = refl;
  requirement = refl;
  list_clusters = refl;
  list_applications = refl;
  list_apps = refl;
  list_profiles = refl;
}

pub before_IsOrderly : IsOrderly memory_api before_snapshot
unfolding string_eq before_snapshot is_plain
before_IsOrderly = record {
  clusters = (refl, (refl, tt));
  profiles = (refl, (refl, tt));
  apps = (refl, (refl, tt));
  plain = ((refl, refl), ((refl, refl), tt));
}

reconcile_everything-Reconciled_example :
    Reconciled list_sets list_sets-IsLawful memory_api before_snapshot after
reconcile_everything-Reconciled_example =
    reconcile_everything-Reconciled list_sets list_sets-IsLawful memory_api memory_api-IsLawful
      unmarshal-Decodes before_snapshot before_IsOrderly run

reconcile_everything_twice_example :
    reconcile_everything list_sets memory_api after ≡ (ok tt, after)
reconcile_everything_twice_example =
    reconcile_everything_twice list_sets list_sets-IsLawful memory_api memory_api-IsLawful
      unmarshal-Decodes before_snapshot before_IsOrderly run

-- An API that lists no profiles.
abbrev broken_api : Api
broken_api = record memory_api { list_profiles = λ _. err "forbidden" }

broken_api-unread : ¬ Snapshot broken_api before
broken_api-unread s = absurd (let h = s.list_profiles in ground arith)

reconcile_everything_unread_example :
    ((reconcile_everything list_sets broken_api before).1 ≡ before)
    × ((reconcile_everything list_sets broken_api before).0 ≢ ok tt)
reconcile_everything_unread_example =
    reconcile_everything_unread list_sets broken_api before broken_api-unread
