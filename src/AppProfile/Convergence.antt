-- ===== src/AppProfile/Convergence.antt =====
-- What a call of `ReconcileEverything` that ends well leaves behind, and that a second call then
-- changes nothing.
use arlon.Prelude.{
  String, ◌≡◌, refl, ◌∙◌, ap, ap₂, Bool, true, ◌||◌, List, [], ◌∷◌, elem, arith, Related, ==-refl,
  string_eq, fun_ext,
}
use arlon.Go.Exec.{ok}
use arlon.Go.Map.{Map, lookup, lookup-nil}
use arlon.Go.Sets.{Sets, from_slice, contains-from_slice}
use arlon.Go.Sets
use arlon.Go.Loop.{Distinct, written, collect, Quiet, for_each-Quiet}
use arlon.Argo.{ArgoCluster, Application, AppSet}
use arlon.AppProfile.External.{Profile, Api}
use arlon.AppProfile.{
  Tables, reconcile_profile, write_cluster, write_profile, write_app, cluster_loop, profile_loop,
  app_loop, reconcile_lists, reconcile_everything,
}
use arlon.AppProfile.Clusters.{
  Mirrors, cluster_uses, members, tables_after, members-collect, written-Mirrors, Quiet-Mirrors,
}
use arlon.AppProfile.Profiles
use arlon.AppProfile.Profiles.{
  Checks, written-Checks, reconcile_profile-Checks, reconcile_profile-clean,
}
use arlon.AppProfile.Apps.{
  Deploys, Decodes, reconcile_app-Deploys, reconcile_app-clean, Deploys-IsSettled,
}
use arlon.AppProfile.Deployment.{
  deploys, deploys-Related, app_names, PlainClusters, deploys-plain, servers-plain,
  app_uses-deploys,
}
use arlon.AppProfile.Everything.{reconcile_everything-Snapshot}
use arlon.AppProfile.Apps.{is_plain}
use arlon.AppProfile.Everything.{
  cluster_listing, profile_listing, app_listing, IsLawful, Snapshot, loops,
}
use arlon.AppProfile.Rounds.{
  start, body, profile_body, app_body, SameReads-trans, after_clusters, after_profiles, after_apps,
}

-- What is asked of the resources that a call finds: the names of each kind are distinct, as they are
-- within a namespace, and the names and servers of clusters need no escape in JSON.
pub record IsOrderly (A : Api) {w : A.World} (s : Snapshot A w) : Type 0 where
  pub clusters : Distinct (cluster_listing A) [] s.clusters
  pub profiles : Distinct (profile_listing A) [] s.profiles
  pub apps : Distinct (app_listing A) [] s.apps
  pub plain : PlainClusters s.clusters

-- The world after a call, against what the call found.
pub record Reconciled (S : Sets) (L : Sets.IsLawful S) (A : Api) {w : A.World} (s : Snapshot A w)
    (w' : A.World) : Type 0 where
  pub next : Snapshot A w'
  pub arlon : next.arlon ≡ s.arlon
  pub clusters : Related (Mirrors s.arlon) s.clusters next.clusters
  pub profiles : Related (Checks (λ a. elem a (app_names s.apps))) s.profiles next.profiles
  pub apps :
      Related
        (λ (a a' : AppSet).
          Deploys S L A.unmarshal (deploys s.arlon s.clusters s.profiles a.name) a a')
        s.apps
        next.apps

module _ (S : Sets) (L : Sets.IsLawful S) (A : Api) (lawful : IsLawful A)
    (d : Decodes A.unmarshal) where
  open A use {World}

  -- The maps that the first two loops fill, in terms of the resources.
  members_of_tables :
      (arlon : List Application) (cs : List ArgoCluster) (p j : String)
      → members S L (lookup p (tables_after S L arlon cs (start S)).profile_to_clusters) j
        ≡ cluster_uses arlon cs p j
  unfolding start
  members_of_tables arlon cs p j =
      members-collect S L arlon cs (start S) p j
      ∙ ap (λ o. members S L o j || cluster_uses arlon cs p j) (lookup-nil p)

  members_of_apps :
      (arlon : List Application) (cs : List ArgoCluster) (ps : List Profile) (apps : List AppSet)
      (a j : String)
      → elem a (app_names apps) ≡ true
      → members S L
          (lookup a (collect (profile_body S apps (tables_after S L arlon cs (start S))) [] ps))
          j
        ≡ deploys arlon cs ps a j
  members_of_apps arlon cs ps apps a j e =
      let m = (tables_after S L arlon cs (start S)).profile_to_clusters in
      let valid = from_slice S (app_names apps) in
      Profiles.members-collect S L valid m ps [] a j
      ∙ ap (λ o. members S L o j || Profiles.app_uses S L valid m ps a j) (lookup-nil a)
      ∙ app_uses-deploys S L apps arlon cs m (members_of_tables arlon cs) ps a j e

  abbrev Wants : List Application → List ArgoCluster → List Profile → AppSet → AppSet → Type 0
  Wants arlon cs ps a a' = Deploys S L A.unmarshal (deploys arlon cs ps a.name) a a'

  written-Deploys :
      (arlon : List Application) (cs : List ArgoCluster) (ps : List Profile) (apps : List AppSet)
      (some_apps : List AppSet)
      → PlainClusters cs
      → ((a : String) → elem a (app_names some_apps) ≡ true → elem a (app_names apps) ≡ true)
      → let tables = tables_after S L arlon cs (start S) in
        let m = collect (profile_body S apps tables) [] ps in
        Related (Wants arlon cs ps) some_apps (written (app_body S A tables m) tt some_apps)
  written-Deploys arlon cs ps apps [] plain within = tt
  written-Deploys arlon cs ps apps (a ∷ some_apps) plain within =
      let tables = tables_after S L arlon cs (start S) in
      let m = collect (profile_body S apps tables) [] ps in
      (
        reconcile_app-Deploys S L A.unmarshal d m tables.clust_name_to_server
            (deploys arlon cs ps a.name) a
            (λ j.
              members_of_apps arlon cs ps apps a.name j
                (within a.name (ground (arith, ==-refl a.name))))
            (λ j h. (
              deploys-plain arlon cs ps a.name j plain h,
              servers-plain S L arlon cs (start S) j plain (unfold start lookup is_plain in refl),
            )),
        written-Deploys arlon cs ps apps some_apps plain (λ b e. within b (ground (arith, e))),
      )

  Related-Checks :
      (apps : List AppSet) (ps ps' : List Profile)
      → Related (Checks (S.contains (from_slice S (app_names apps)))) ps ps'
      → Related (Checks (λ a. elem a (app_names apps))) ps ps'
  Related-Checks apps ps ps' h = rw (fun_ext (contains-from_slice S L (app_names apps))) at h

  -- Over lawful sets and an API that keeps what it is given and decodes what the program writes, a
  -- call that ends well leaves every cluster with the annotation that counts for it, every profile
  -- with the status that its names have, and every app whose generators are a single list with
  -- elements that decode to exactly the clusters that it is to be deployed to. What it does not own
  -- is as it was. The names of each kind are distinct, and those of clusters plain.
  pub reconcile_everything-Reconciled :
      {w w' : World} (s : Snapshot A w)
      → IsOrderly A s
      → reconcile_everything S A w ≡ (ok tt, w')
      → Reconciled S L A s w'
  reconcile_everything-Reconciled {w} {w'} s orderly done =
      let l = loops S A w w' s done in
      let (tables-eq, lc₁, (r₁, lp₁, la₁)) =
        after_clusters S L A lawful s.arlon s.clusters s.profiles s.apps w l.w₁ l.tables
          s.list_clusters s.list_profiles s.list_apps orderly.clusters l.over_clusters in
      let cs' = written (body S s.arlon) (start S) s.clusters in
      let (m-eq, lp₂, (r₂, lc₂, la₂)) =
        after_profiles S L A lawful l.tables cs' s.profiles s.apps l.w₁ l.w₂ l.app_to_clusters lc₁
          lp₁ la₁ orderly.profiles l.over_profiles in
      let ps' = written (profile_body S s.apps l.tables) [] s.profiles in
      let (la₃, (r₃, lc₃, lp₃)) =
        after_apps S L A lawful l.tables l.app_to_clusters cs' ps' s.apps l.w₂ w' lc₂ lp₂ la₂
          orderly.apps l.over_apps in
      let (client, app_client, applications, requirement) =
        SameReads-trans A r₁ (SameReads-trans A r₂ r₃) in
      record {
        next = record {
          clusters = cs';
          arlon = s.arlon;
          apps = written (app_body S A l.tables l.app_to_clusters) tt s.apps;
          profiles = ps';
          cluster_client = client ∙ s.cluster_client;
          application_client = app_client ∙ s.application_client;
          requirement = requirement ∙ s.requirement;
          list_clusters = lc₃;
          list_applications = applications ∙ s.list_applications;
          list_apps = la₃;
          list_profiles = lp₃;
        };
        arlon = refl;
        clusters = written-Mirrors S L s.arlon (start S) s.clusters;
        profiles = Related-Checks s.apps s.profiles ps' (
            written-Checks S L (from_slice S (app_names s.apps)) l.tables.profile_to_clusters []
              s.profiles);
        apps =
            rw (m-eq, tables-eq)
              (written-Deploys s.arlon s.clusters s.profiles s.apps s.apps orderly.plain
                (λ a e. e));
      }

  -- What a second call finds.
  Related-names :
      (arlon : List Application) (cs : List ArgoCluster) (ps : List Profile) (bs bs' : List AppSet)
      → Related (Wants arlon cs ps) bs bs'
      → app_names bs' ≡ app_names bs
  Related-names arlon cs ps [] [] r = refl
  Related-names arlon cs ps [] (a' ∷ bs') r = elim r [ ]
  Related-names arlon cs ps (a ∷ bs) [] r = elim r [ ]
  Related-names arlon cs ps (a ∷ bs) (a' ∷ bs') (dep, r) =
      ap₂ (λ x xs. x ∷ xs) dep.name (Related-names arlon cs ps bs bs' r)

  Checks-Quiet :
      (exists : String → Bool) (valid : S.Set) (tables : Map S.Set) (m : Map S.Set)
      (ps ps' : List Profile)
      → ((a : String) → S.contains valid a ≡ exists a)
      → Related (Checks exists) ps ps'
      → Quiet (reconcile_profile S valid tables) m ps'
  Checks-Quiet exists valid tables m [] [] same r = tt
  Checks-Quiet exists valid tables m [] (p' ∷ ps') same r = elim r [ ]
  Checks-Quiet exists valid tables m (p ∷ ps) [] same r = elim r [ ]
  Checks-Quiet exists valid tables m (p ∷ ps) (p' ∷ ps') same (c, r) = (
    reconcile_profile-clean S L valid tables m p' (record {
      name = refl;
      app_names = refl;
      invalid = λ a. rw (same a, c.app_names) (c.invalid a);
      health = rw (fun_ext same, c.app_names) c.health;
    }),
    Checks-Quiet exists valid tables (reconcile_profile S valid tables m p').1 ps ps' same r,
  )

  Deploys-Quiet :
      (arlon : List Application) (cs : List ArgoCluster) (ps : List Profile) (servers : Tables S)
      (m : Map S.Set) (bs bs' : List AppSet)
      → ((a j : String)
          → elem a (app_names bs') ≡ true
          → members S L (lookup a m) j ≡ deploys arlon cs ps a j)
      → Related (Wants arlon cs ps) bs bs'
      → Quiet (app_body S A servers m) tt bs'
  Deploys-Quiet arlon cs ps servers m [] [] exact r = tt
  Deploys-Quiet arlon cs ps servers m [] (a' ∷ bs') exact r = elim r [ ]
  Deploys-Quiet arlon cs ps servers m (a ∷ bs) [] exact r = elim r [ ]
  Deploys-Quiet arlon cs ps servers m (a ∷ bs) (a' ∷ bs') exact (dep, r) = (
    reconcile_app-clean S L A.unmarshal m servers.clust_name_to_server (deploys arlon cs ps a.name)
        a'
        (λ j.
          exact a'.name j (ground (arith, ==-refl a'.name))
          ∙ ap (λ n. deploys arlon cs ps n j) dep.name)
        (Deploys-IsSettled S L A.unmarshal (deploys arlon cs ps a.name) a a' dep),
    Deploys-Quiet arlon cs ps servers m bs bs' (λ b j e. exact b j (ground (arith, e))) r,
  )

  -- A call in a world that an earlier call has reconciled ends well and writes nothing.
  reconcile_everything_again :
      {w w' : World} (s : Snapshot A w)
      → Reconciled S L A s w'
      → reconcile_everything S A w' ≡ (ok tt, w')
  unfolding reconcile_lists cluster_loop profile_loop app_loop start
  reconcile_everything_again {w} {w'} s r =
      let t = r.next in
      let tables = tables_after S L t.arlon t.clusters (start S) in
      let valid = from_slice S (app_names t.apps) in
      let m = collect (profile_body S t.apps tables) [] t.profiles in
      let exists = λ (a : String). elem a (app_names s.apps) in
      let names = Related-names s.arlon s.clusters s.profiles s.apps t.apps r.apps in
      let one =
        for_each-Quiet (write_cluster S A) (body S t.arlon) t.clusters (start S) w'
          (rw r.arlon (Quiet-Mirrors S L s.arlon (start S) s.clusters t.clusters r.clusters)) in
      let two = for_each-Quiet (write_profile S A) (profile_body S t.apps tables) t.profiles [] w' (
        Checks-Quiet exists valid tables.profile_to_clusters [] s.profiles t.profiles
          (λ a. contains-from_slice S L (app_names t.apps) a ∙ ap (elem a) names) r.profiles) in
      let three = for_each-Quiet (write_app S A) (app_body S A tables m) t.apps tt w' (
        Deploys-Quiet s.arlon s.clusters s.profiles tables m s.apps t.apps
          (λ a j e.
            members_of_apps t.arlon t.clusters t.profiles t.apps a j e
            ∙ ap (λ l. deploys l t.clusters t.profiles a j) r.arlon
            ∙ deploys-Related s.arlon s.clusters t.clusters exists s.profiles t.profiles a j
                r.clusters r.profiles)
          r.apps) in
      reconcile_everything-Snapshot S A w' t ∙ rw (one, two, three) refl

  -- Over lawful sets and an API that keeps what it is given and decodes what the program writes:
  -- right after a call of `ReconcileEverything` that ended well, another call ends well and leaves
  -- the world as it is. The names of each kind are distinct, and those of clusters plain.
  pub reconcile_everything_twice :
      {w w' : World} (s : Snapshot A w)
      → IsOrderly A s
      → reconcile_everything S A w ≡ (ok tt, w')
      → reconcile_everything S A w' ≡ (ok tt, w')
  reconcile_everything_twice s orderly done =
      reconcile_everything_again s (reconcile_everything-Reconciled s orderly done)
