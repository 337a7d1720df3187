-- ===== src/AppProfile.antt =====
-- pkg/appprofile/reconcile.go: the global reconciliation of clusters, app profiles and apps.
-- `ReconcileEverything` reads all resources, then runs three loops. The mutex that lets one call
-- run at a time, the logging and the closing of connections are left out.
pub mod External
mod Clusters
mod Profiles
pub mod Apps
mod Deployment
pub mod Everything
pub mod Memory
mod Rounds
pub mod Convergence
pub mod Tests
use arlon.Prelude.{
  String, ◌<>◌, Bool, true, false, not, ◌||◌, Option, none, some, List, [], ◌∷◌, foldl, map, length,
  ltb, ◌==◌, string_eq, if◌then◌else◌,
}
use arlon.Go.Exec.{Result, ok, err, Exec, pure, ◌>>=◌, ◌>>◌, reads, wrapped}
use arlon.Go.Map.{Map, StringMap, lookup, insert, erase, read, or_empty}
use arlon.Go.Strings.{split, comma}
use arlon.Go.Sets.{Sets, from_slice}
use arlon.Go.Loop.{for_each}
use arlon.Argo.{ArgoCluster, Application, Generator, AppSet}
use External.{Json, text, other, Profile, Api}

-- the annotation that names the profiles of a cluster, separated by commas
abbrev pub profiles_annotation_key : String
profiles_annotation_key = "arlon.io/profiles"

abbrev pub gen2_query : String
gen2_query = "managed-by=arlon,arlon-type=cluster-app"

-- The two maps that the loop over the clusters fills.
pub record Tables (S : Sets) : Type 0 where
  pub profile_to_clusters : Map S.Set
  pub clust_name_to_server : StringMap

-- `arlonClusterMap`: of two applications of one name the later one counts.
unfoldable pub arlon_cluster_map : List Application → Map Application
arlon_cluster_map = foldl (λ m a. insert a.name a m) []

-- The JSON text that is written for a cluster.
abbrev pub element_json : String → String → String
element_json clust_name server =
    "{\"cluster_name\":\"" <> (clust_name <> ("\", \"cluster_server\":\"" <> (server <> "\"}")))

module _ (S : Sets) where
  abbrev or_new : Option S.Set → S.Set
  or_new none = S.empty
  or_new (some s) = s

  add_cluster : String → List String → Map S.Set → Map S.Set
  add_cluster clust_name [] m = m
  add_cluster clust_name (profile ∷ profiles) m =
      add_cluster clust_name profiles
        (insert profile (S.add (or_new (lookup profile m)) clust_name) m)

  unfoldable pub update_profile_to_clusters_map : String → String → Map S.Set → Map S.Set
  unfolding add_cluster
  update_profile_to_clusters_map clust_name names m =
      if names == "" then m else add_cluster clust_name (split comma names) m

  use_profiles : String → String → Tables S → Tables S
  use_profiles clust_name names t = record t {
    profile_to_clusters = update_profile_to_clusters_map clust_name names t.profile_to_clusters;
  }

  -- An Argo CD cluster with an Arlon cluster gets the annotation of the latter.
  mirror_annotation : ArgoCluster → Application → Tables S → Option ArgoCluster × Tables S
  mirror_annotation argo_clust arlon_clust t =
      let annotations = or_empty argo_clust.annotations in
      let argo_annotation = read annotations profiles_annotation_key in
      let arlon_annotation = read (or_empty arlon_clust.annotations) profiles_annotation_key in
      let used = use_profiles arlon_clust.name arlon_annotation t in
      if not (arlon_annotation == "")
      then (if not (argo_annotation == arlon_annotation)
          then (
            some (record argo_clust {
              annotations = some (insert profiles_annotation_key arlon_annotation annotations);
            }),
            used,
          )
          else (none, used))
      else if not (argo_annotation == "")
      then (
        some (record argo_clust { annotations = some (erase profiles_annotation_key annotations) }),
        used,
      )
      else (none, t)

  -- The body of the loop over the Argo CD clusters. One that has no Arlon cluster keeps its own
  -- annotation.
  unfoldable pub reconcile_cluster :
      Map Application → Tables S → ArgoCluster → Option ArgoCluster × Tables S
  unfolding use_profiles mirror_annotation
  reconcile_cluster arlon_clusters t argo_clust =
      let named : Tables S = record t {
        clust_name_to_server = insert argo_clust.name argo_clust.server t.clust_name_to_server;
      } in
      let argo_annotation = read (or_empty argo_clust.annotations) profiles_annotation_key in
      elim (lookup argo_clust.name arlon_clusters) [
        | none ↦ (none, use_profiles argo_clust.name argo_annotation named)
        | some arlon_clust ↦ mirror_annotation argo_clust arlon_clust named
      ]

  -- The sets that the loop over the names of a profile fills: the names of no app, and the
  -- clusters of each app.
  pub record AppNames : Type 0 where
    pub invalid : S.Set
    pub app_to_clusters : Map S.Set

  -- `appToClusters[appName]` after the two `if`s of the loop body.
  join_clusters : Option S.Set → Option S.Set → S.Set
  join_clusters old none = or_new old
  join_clusters old (some clusters) = S.union (or_new old) clusters

  check_app_name : S.Set → Option S.Set → AppNames → String → AppNames
  unfolding join_clusters
  check_app_name valid_app_names clusters names app_name =
      if not (S.contains valid_app_names app_name)
      then record names { invalid = S.add names.invalid app_name }
      else record names {
        app_to_clusters =
            insert app_name (join_clusters (lookup app_name names.app_to_clusters) clusters)
              names.app_to_clusters;
      }

  unfoldable pub check_app_names : S.Set → Option S.Set → Map S.Set → List String → AppNames
  unfolding check_app_name
  check_app_names valid_app_names clusters app_to_clusters =
      foldl (check_app_name valid_app_names clusters)
        (record { invalid = S.empty; app_to_clusters = app_to_clusters })

  abbrev health_of : List String → String
  health_of invalid = if ltb 0 (length invalid) then "degraded" else "healthy"

  -- The status of a profile whose invalid names are now these.
  unfoldable pub refresh_status : Profile → S.Set → Option Profile
  refresh_status prof after =
      let same = S.equal (from_slice S prof.invalid_app_names) after in
      let invalid : List String = if not same then S.to_slice after else prof.invalid_app_names in
      if not same || not (prof.health == health_of invalid)
      then some (record prof { invalid_app_names = invalid; health = health_of invalid })
      else none

  -- The body of the loop over the profiles.
  unfoldable pub reconcile_profile :
      S.Set → Map S.Set → Map S.Set → Profile → Option Profile × Map S.Set
  unfolding check_app_names refresh_status
  reconcile_profile valid_app_names profile_to_clusters app_to_clusters prof =
      let names =
        check_app_names valid_app_names (lookup prof.name profile_to_clusters) app_to_clusters
          prof.app_names in
      (refresh_status prof names.invalid, names.app_to_clusters)

  abbrev pub new_elements : StringMap → S.Set → List String
  new_elements servers clusters =
      map (λ clust_name. element_json clust_name (read servers clust_name)) (S.to_slice clusters)

  module _ (unmarshal : String → Result (List (String × Json))) where
    add_text : S.Set → Json → S.Set
    add_text s (text clust) = S.add s clust
    add_text s other = s

    read_pairs : List (String × Json) → S.Set → S.Set
    unfolding add_text
    read_pairs [] s = s
    read_pairs ((key, value) ∷ pairs) s =
        read_pairs pairs (if key == "cluster_name" then add_text s value else s)

    -- The loop stops at the first element that is no JSON object.
    unfoldable pub read_elements : List String → S.Set → S.Set
    unfolding read_pairs
    read_elements [] s = s
    read_elements (raw ∷ elems) s = elim (unmarshal raw) [
      | err e ↦ s
      | ok element ↦ read_elements elems (read_pairs element s)
    ]

    set_elements : AppSet → List String → StringMap → S.Set → Option AppSet
    set_elements app elems servers after_clusters =
        if S.equal after_clusters (read_elements elems S.empty)
        then none
        else some (record app {
          generators = (record { elements = some (new_elements servers after_clusters) }) ∷ [];
        })

    reconcile_generator : AppSet → List Generator → StringMap → S.Set → Option AppSet
    unfolding set_elements
    reconcile_generator app (gen ∷ []) servers after_clusters = elim gen.elements [
      | none ↦ none
      | some elems ↦ set_elements app elems servers after_clusters
    ]
    reconcile_generator app _ servers after_clusters = none

    -- The body of the loop over the apps: one whose generator is not a single list is left alone.
    unfoldable pub reconcile_app : Map S.Set → StringMap → AppSet → Option AppSet
    unfolding reconcile_generator read_elements
    reconcile_app app_to_clusters servers app =
        reconcile_generator app app.generators servers (or_new (lookup app.name app_to_clusters))

module _ (S : Sets) (A : Api) where
  abbrev pub write_cluster : ArgoCluster → Exec A.World (Unit {0})
  write_cluster c = wrapped "failed to update argo cluster: " (A.update_cluster c)

  abbrev pub write_profile : Profile → Exec A.World (Unit {0})
  write_profile p = wrapped "failed to update app profile: " (A.update_profile_status p)

  abbrev pub write_app : AppSet → Exec A.World (Unit {0})
  write_app a = wrapped "failed to update applicationset: " (A.update_app_set a)

  -- `validAppNames`
  abbrev pub valid_app_names : List AppSet → S.Set
  valid_app_names apps = from_slice S (map (λ (a : AppSet). a.name) apps)

  unfoldable pub cluster_loop : List Application → List ArgoCluster → Exec A.World (Tables S)
  cluster_loop arlon_clusters argo_clusters =
      for_each write_cluster (reconcile_cluster S (arlon_cluster_map arlon_clusters)) argo_clusters
        (record { profile_to_clusters = []; clust_name_to_server = [] })

  unfoldable pub profile_loop : List AppSet → Tables S → List Profile → Exec A.World (Map S.Set)
  profile_loop apps tables profiles =
      for_each write_profile (reconcile_profile S (valid_app_names apps) tables.profile_to_clusters)
        profiles []

  unfoldable pub app_loop : Tables S → Map S.Set → List AppSet → Exec A.World (Unit {0})
  app_loop tables app_to_clusters apps =
      for_each write_app
        (λ (_ : Unit {0}) a.
          (reconcile_app S A.unmarshal app_to_clusters tables.clust_name_to_server a, tt))
        apps tt

  -- The three loops, over what was read.
  unfoldable pub reconcile_lists :
      List ArgoCluster → List Application → List AppSet → List Profile → Exec A.World (Unit {0})
  reconcile_lists argo_clusters arlon_clusters apps profiles = do
    tables ← cluster_loop arlon_clusters argo_clusters
    app_to_clusters ← profile_loop apps tables profiles
    app_loop tables app_to_clusters apps

  unfoldable pub reconcile_everything : Exec A.World (Unit {0})
  reconcile_everything = do
    wrapped "failed to get argocd clusters client: " (reads A.new_cluster_client)
    argo_clusters ← wrapped "failed to list argocd clusters: " (reads A.list_clusters)
    wrapped "failed to get argocd application client: " (reads A.new_application_client)
    arlon_clusters ←
        wrapped "failed to list argocd applications: " (reads (A.list_applications gen2_query))
    wrapped "failed to create requirement: " (reads A.new_requirement)
    apps ← wrapped "failed to list applicationsets: " (reads A.list_app_sets)
    profiles ← wrapped "failed to list app profiles: " (reads A.list_profiles)
    reconcile_lists argo_clusters arlon_clusters apps profiles
