-- ===== src/AppProfile/Rounds.antt =====
-- The three loops of a call, each over the world that the one before it leaves.
use arlon.Prelude.{◌≡◌, refl, ◌∙◌, Option, List, [], string_eq}
use arlon.Go.Exec.{ok}
use arlon.Go.Map.{Map}
use arlon.Go.Sets.{Sets, from_slice, contains-from_slice}
use arlon.Go.Sets
use arlon.Go.Loop.{Distinct, written, collect, for_each-collect, for_each-keeps, for_each_listing}
use arlon.Argo.{ArgoCluster, Application, AppSet}
use arlon.AppProfile.External.{Profile, Api}
use arlon.AppProfile.{
  Tables, arlon_cluster_map, reconcile_cluster, reconcile_profile, reconcile_app, write_cluster,
  write_profile, write_app, cluster_loop, profile_loop, app_loop,
}
use arlon.AppProfile.Clusters.{tables_after, reconcile_cluster-Mirrors}
use arlon.AppProfile.Profiles.{reconcile_profile-Checks}
use arlon.AppProfile.Apps.{reconcile_app-name}
use arlon.AppProfile.Deployment.{app_names}
use arlon.AppProfile.Everything.{
  cluster_listing, profile_listing, app_listing, IsLawful, SameReads, Replaces-wrapped,
}

module _ (S : Sets) where
  unfoldable pub start : Tables S
  start = record { profile_to_clusters = []; clust_name_to_server = [] }

  abbrev pub body : List Application → Tables S → ArgoCluster → Option ArgoCluster × Tables S
  body arlon = reconcile_cluster S (arlon_cluster_map arlon)

  abbrev pub profile_body :
      List AppSet → Tables S → Map S.Set → Profile → Option Profile × Map S.Set
  profile_body apps tables =
      reconcile_profile S (from_slice S (app_names apps)) tables.profile_to_clusters

module _ (S : Sets) (A : Api) where
  abbrev pub app_body : Tables S → Map S.Set → Unit {0} → AppSet → Option AppSet × Unit {0}
  app_body tables m _ a = (reconcile_app S A.unmarshal m tables.clust_name_to_server a, tt)

module _ (A : Api) where
  open A use {World}

  pub SameReads-trans : {u v w : World} → SameReads A u v → SameReads A v w → SameReads A u w
  SameReads-trans (a, b, c, d) (a', b', c', d') = (a' ∙ a, b' ∙ b, c' ∙ c, d' ∙ d)

  SameReads-refl : {u : World} → SameReads A u u
  SameReads-refl = (refl, refl, refl, refl)

  -- A world with these reads and two listings of other kinds.
  abbrev pub Frame : {X Y : Type 0} → (World → X) → X → (World → Y) → Y → World → World → Type 0
  Frame f x g y w v = SameReads A w v × (f v ≡ x) × (g v ≡ y)

  Frame-step :
      {X Y : Type 0} (f : World → X) (x : X) (g : World → Y) (y : Y) (w v v' : World)
      → Frame f x g y w v
      → SameReads A v v'
      → f v' ≡ f v
      → g v' ≡ g v
      → Frame f x g y w v'
  Frame-step f x g y w v v' (r, p, q) r' p' q' = (SameReads-trans r r', p' ∙ p, q' ∙ q)

module _ (S : Sets) (L : Sets.IsLawful S) (A : Api) (lawful : IsLawful A) where
  open A use {World}

  -- The loop over the clusters.
  pub after_clusters :
      (arlon : List Application) (cs : List ArgoCluster) (ps : List Profile) (apps : List AppSet)
      (w w₁ : World) (tables : Tables S)
      → A.list_clusters w ≡ ok cs
      → A.list_profiles w ≡ ok ps
      → A.list_app_sets w ≡ ok apps
      → Distinct (cluster_listing A) [] cs
      → cluster_loop S A arlon cs w ≡ (ok tables, w₁)
      → (tables ≡ tables_after S L arlon cs (start S))
        × (A.list_clusters w₁ ≡ ok (written (body S arlon) (start S) cs))
        × Frame A A.list_profiles (ok ps) A.list_app_sets (ok apps) w w₁
  unfolding cluster_loop start
  after_clusters arlon cs ps apps w w₁ tables lc lp la distinct done =
      let frame = λ (v : World). Frame A A.list_profiles (ok ps) A.list_app_sets (ok apps) w v in
      (
        for_each-collect (write_cluster S A) (body S arlon) cs (start S) w done,
        for_each_listing _ (body S arlon)
            (Replaces-wrapped S A "failed to update argo cluster: " (cluster_listing A)
              lawful.replaces_cluster)
            (λ t c. (reconcile_cluster-Mirrors S L arlon t c).name) cs (start S) w lc distinct done,
        rw done at (
            for_each-keeps (write_cluster S A) (body S arlon) frame
              (λ c v h.
                let (r, p, q) = lawful.keeps_cluster c v in
                Frame-step A A.list_profiles (ok ps) A.list_app_sets (ok apps) w v _ h r p q)
              cs (start S) w (SameReads-refl A, lp, la)),
      )

  -- The loop over the profiles.
  pub after_profiles :
      (tables : Tables S) (cs : List ArgoCluster) (ps : List Profile) (apps : List AppSet)
      (w w₂ : World) (m : Map S.Set)
      → A.list_clusters w ≡ ok cs
      → A.list_profiles w ≡ ok ps
      → A.list_app_sets w ≡ ok apps
      → Distinct (profile_listing A) [] ps
      → profile_loop S A apps tables ps w ≡ (ok m, w₂)
      → (m ≡ collect (profile_body S apps tables) [] ps)
        × (A.list_profiles w₂ ≡ ok (written (profile_body S apps tables) [] ps))
        × Frame A A.list_clusters (ok cs) A.list_app_sets (ok apps) w w₂
  unfolding profile_loop
  after_profiles tables cs ps apps w w₂ m lc lp la distinct done =
      let frame = λ (v : World). Frame A A.list_clusters (ok cs) A.list_app_sets (ok apps) w v in
      let valid = from_slice S (app_names apps) in
      (
        for_each-collect (write_profile S A) (profile_body S apps tables) ps [] w done,
        for_each_listing _ (profile_body S apps tables)
            (Replaces-wrapped S A "failed to update app profile: " (profile_listing A)
              lawful.replaces_profile)
            (λ m p. (reconcile_profile-Checks S L valid tables.profile_to_clusters m p).name) ps []
            w lp distinct done,
        rw done at (
            for_each-keeps (write_profile S A) (profile_body S apps tables) frame
              (λ p v h.
                let (r, p, q) = lawful.keeps_profile p v in
                Frame-step A A.list_clusters (ok cs) A.list_app_sets (ok apps) w v _ h r p q)
              ps [] w (SameReads-refl A, lc, la)),
      )

  -- The loop over the apps.
  pub after_apps :
      (tables : Tables S) (m : Map S.Set) (cs : List ArgoCluster) (ps : List Profile)
      (apps : List AppSet) (w w₃ : World)
      → A.list_clusters w ≡ ok cs
      → A.list_profiles w ≡ ok ps
      → A.list_app_sets w ≡ ok apps
      → Distinct (app_listing A) [] apps
      → app_loop S A tables m apps w ≡ (ok tt, w₃)
      → (A.list_app_sets w₃ ≡ ok (written (app_body S A tables m) tt apps))
        × Frame A A.list_clusters (ok cs) A.list_profiles (ok ps) w w₃
  unfolding app_loop
  after_apps tables m cs ps apps w w₃ lc lp la distinct done =
      let frame = λ (v : World). Frame A A.list_clusters (ok cs) A.list_profiles (ok ps) w v in
      (
        for_each_listing _ (app_body S A tables m)
            (Replaces-wrapped S A "failed to update applicationset: " (app_listing A)
              lawful.replaces_app)
            (λ _ a. reconcile_app-name S L A.unmarshal m tables.clust_name_to_server a) apps tt w la
            distinct done,
        rw done at (
            for_each-keeps (write_app S A) (app_body S A tables m) frame
              (λ a v h.
                let (r, p, q) = lawful.keeps_app a v in
                Frame-step A A.list_clusters (ok cs) A.list_profiles (ok ps) w v _ h r p q)
              apps tt w (SameReads-refl A, lc, lp)),
      )
