-- ===== src/AppProfile/Everything.antt =====
-- `ReconcileEverything` as a whole, over an API that keeps what it is given.
use arlon.Prelude.{◌≢◌, inl, inr, ap, String, ◌≡◌, sym, ◌∙◌, List, arith, string_eq}
use arlon.Go.Exec.{ok, continue-eq-ok, wrapped-eq-ok, Result-cases, ◌>>=◌, wrapped}
use arlon.Go.Map.{Map}
use arlon.Go.Sets.{Sets}
use arlon.Go.Loop.{Listing, Replaces}
use arlon.Argo.{ArgoCluster, Application, AppSet}
use arlon.AppProfile.External.{Profile, Api}
use arlon.AppProfile.{
  gen2_query, Tables, cluster_loop, profile_loop, app_loop, reconcile_lists, reconcile_everything,
}

module _ (A : Api) where
  open A use {World}

  abbrev pub cluster_listing : Listing World ArgoCluster
  cluster_listing = record { name = λ c. c.name; list = A.list_clusters; update = A.update_cluster }

  abbrev pub profile_listing : Listing World Profile
  profile_listing = record {
    name = λ p. p.name;
    list = A.list_profiles;
    update = A.update_profile_status;
  }

  abbrev pub app_listing : Listing World AppSet
  app_listing = record { name = λ a. a.name; list = A.list_app_sets; update = A.update_app_set }

  -- The calls that read something else than the resources that the loops write.
  abbrev pub SameReads : World → World → Type 0
  SameReads w w' =
      (A.new_cluster_client w' ≡ A.new_cluster_client w)
      × (A.new_application_client w' ≡ A.new_application_client w)
      × (A.list_applications gen2_query w' ≡ A.list_applications gen2_query w)
      × (A.new_requirement w' ≡ A.new_requirement w)

  -- What the program relies on of the API: an update replaces the resource of its name in the later
  -- listings of its kind, and changes no listing of another kind.
  pub record IsLawful : Type 0 where
    pub replaces_cluster : Replaces cluster_listing
    pub replaces_profile : Replaces profile_listing
    pub replaces_app : Replaces app_listing
    pub keeps_cluster :
        (c : ArgoCluster) (w : World)
        → let w' = (A.update_cluster c w).1 in
          SameReads w w'
          × (A.list_profiles w' ≡ A.list_profiles w)
          × (A.list_app_sets w' ≡ A.list_app_sets w)
    pub keeps_profile :
        (p : Profile) (w : World)
        → let w' = (A.update_profile_status p w).1 in
          SameReads w w'
          × (A.list_clusters w' ≡ A.list_clusters w)
          × (A.list_app_sets w' ≡ A.list_app_sets w)
    pub keeps_app :
        (a : AppSet) (w : World)
        → let w' = (A.update_app_set a w).1 in
          SameReads w w'
          × (A.list_clusters w' ≡ A.list_clusters w)
          × (A.list_profiles w' ≡ A.list_profiles w)

  -- What a call of `ReconcileEverything` finds.
  pub record Snapshot (w : World) : Type 0 where
    pub clusters : List ArgoCluster
    pub arlon : List Application
    pub apps : List AppSet
    pub profiles : List Profile
    pub cluster_client : A.new_cluster_client w ≡ ok tt
    pub application_client : A.new_application_client w ≡ ok tt
    pub requirement : A.new_requirement w ≡ ok tt
    pub list_clusters : A.list_clusters w ≡ ok clusters
    pub list_applications : A.list_applications gen2_query w ≡ ok arlon
    pub list_apps : A.list_app_sets w ≡ ok apps
    pub list_profiles : A.list_profiles w ≡ ok profiles

module _ (S : Sets) (A : Api) where
  -- With every read answered, the call is its three loops.
  pub reconcile_everything-Snapshot :
      (w : A.World) (s : Snapshot A w)
      → reconcile_everything S A w ≡ reconcile_lists S A s.clusters s.arlon s.apps s.profiles w
  unfolding reconcile_everything
  reconcile_everything-Snapshot w s = rw (
    s.cluster_client, s.list_clusters, s.application_client, s.list_applications, s.requirement,
    s.list_apps, s.list_profiles,
  )

  -- A call that ends well had every read answered.
  pub found : (w : A.World) {w' : A.World} → reconcile_everything S A w ≡ (ok tt, w') → Snapshot A w
  unfolding reconcile_everything
  found w h =
      let clusters : (l : List ArgoCluster) × (A.list_clusters w ≡ ok l) = ground arith in
      let arlon : (l : List Application) × (A.list_applications gen2_query w ≡ ok l) =
        ground arith in
      let apps : (l : List AppSet) × (A.list_app_sets w ≡ ok l) = ground arith in
      let profiles : (l : List Profile) × (A.list_profiles w ≡ ok l) = ground arith in
      record {
        clusters = clusters.0;
        arlon = arlon.0;
        apps = apps.0;
        profiles = profiles.0;
        cluster_client = ground arith;
        application_client = ground arith;
        requirement = ground arith;
        list_clusters = clusters.1;
        list_applications = arlon.1;
        list_apps = apps.1;
        list_profiles = profiles.1;
      }

  open A use {World}

  abbrev pub with_wrapped : {X : Type 0} → String → Listing World X → Listing World X
  with_wrapped context L = record L { update = λ x. wrapped context (L.update x) }

  pub Replaces-wrapped :
      {X : Type 0} (context : String) (L : Listing World X)
      → Replaces L
      → Replaces (with_wrapped context L)
  Replaces-wrapped context L r pre post old new w w' listed same fresh done =
      r pre post old new w w' listed same fresh (wrapped-eq-ok context (L.update new) w done)

  -- The three loops of a call that ends well.
  pub record Loops (w w' : World) (s : Snapshot A w) : Type 0 where
    pub tables : Tables S
    pub app_to_clusters : Map S.Set
    pub w₁ : World
    pub w₂ : World
    pub over_clusters : cluster_loop S A s.arlon s.clusters w ≡ (ok tables, w₁)
    pub over_profiles : profile_loop S A s.apps tables s.profiles w₁ ≡ (ok app_to_clusters, w₂)
    pub over_apps : app_loop S A tables app_to_clusters s.apps w₂ ≡ (ok tt, w')

  pub loops :
      (w w' : World) (s : Snapshot A w) → reconcile_everything S A w ≡ (ok tt, w') → Loops w w' s
  unfolding reconcile_lists
  loops w w' s done =
      let (tables, first, rest) =
        continue-eq-ok (cluster_loop S A s.arlon s.clusters w)
          (λ tables.
            profile_loop S A s.apps tables s.profiles >>= λ m. app_loop S A tables m s.apps)
          (sym (reconcile_everything-Snapshot w s) ∙ done) in
      let w₁ = (cluster_loop S A s.arlon s.clusters w).1 in
      let (m, second, third) =
        continue-eq-ok (profile_loop S A s.apps tables s.profiles w₁)
          (λ m. app_loop S A tables m s.apps) rest in
      record {
        tables = tables;
        app_to_clusters = m;
        w₁ = _;
        w₂ = _;
        over_clusters = first;
        over_profiles = second;
        over_apps = third;
      }

  untouched : (w : World) → ¬ Snapshot A w → (reconcile_everything S A w).1 ≡ w
  unfolding reconcile_everything
  untouched w unread = elim (Result-cases (A.new_cluster_client w)) [
    | inr (_, e) ↦ ground arith
    | inl (client_, client-eq) ↦ elim (Result-cases (A.list_clusters w)) [
      | inr (_, e) ↦ ground arith
      | inl (clusters_, clusters-eq) ↦ elim (Result-cases (A.new_application_client w)) [
        | inr (_, e) ↦ ground arith
        | inl (app_client_, app_client-eq) ↦
            elim (Result-cases (A.list_applications gen2_query w)) [
              | inr (_, e) ↦ ground arith
              | inl (arlon_, arlon-eq) ↦ elim (Result-cases (A.new_requirement w)) [
                | inr (_, e) ↦ ground arith
                | inl (requirement_, requirement-eq) ↦ elim (Result-cases (A.list_app_sets w)) [
                  | inr (_, e) ↦ ground arith
                  | inl (apps_, apps-eq) ↦ elim (Result-cases (A.list_profiles w)) [
                    | inr (_, e) ↦ ground arith
                    | inl (profiles_, profiles-eq) ↦ absurd (
                        unread (record {
                          clusters = clusters_;
                          arlon = arlon_;
                          apps = apps_;
                          profiles = profiles_;
                          cluster_client = client-eq;
                          application_client = app_client-eq;
                          requirement = requirement-eq;
                          list_clusters = clusters-eq;
                          list_applications = arlon-eq;
                          list_apps = apps-eq;
                          list_profiles = profiles-eq;
                        }))
                  ]
                ]
              ]
            ]
      ]
    ]
  ]

  -- A call that is not answered by every read fails, and has written nothing.
  pub reconcile_everything_unread :
      (w : World)
      → ¬ Snapshot A w
      → ((reconcile_everything S A w).1 ≡ w) × ((reconcile_everything S A w).0 ≢ ok tt)
  reconcile_everything_unread w unread =
      (untouched w unread, λ h. unread (found w (ap (λ r. (r, (reconcile_everything S A w).1)) h)))
