-- ===== src/AppProfile/Clusters.antt =====
-- The loop over the Argo CD clusters: which clusters use which profiles, and the annotations.
use mathlib.Core.Option.{get_or}
use arlon.Prelude.{
  ◌≢◌, Related, String, ◌≡◌, refl, sym, ◌∙◌, Bool, false, not, ◌&&◌, ◌||◌, Option, none, some, List,
  [], ◌∷◌, foldl, arith, any, elem, ◌==◌, string_eq, if◌then◌else◌, Option-cases, inl, inr,
}
use arlon.Go.Map.{Map, lookup, insert, read, or_empty, lookup-insert, lookup-erase}
use arlon.Go.Strings.{split, comma}
use arlon.Go.Sets.{Sets, IsLawful}
use arlon.Go.Loop.{written, Quiet}
use arlon.Argo.{ArgoCluster, Application}
use arlon.AppProfile.{
  profiles_annotation_key, Tables, arlon_cluster_map, or_new, add_cluster,
  update_profile_to_clusters_map, reconcile_cluster,
}

-- The annotation of a resource: empty if it has none.
abbrev pub own_annotation : Option (Map String) → String
own_annotation annotations = read (or_empty annotations) profiles_annotation_key

-- Whether an annotation names a profile.
abbrev pub names_profile : String → String → Bool
names_profile names p = not (names == "") && elem p (split comma names)

-- The Arlon cluster of a name: the last of that name in the list.
abbrev later : Option Application → Option Application → Option Application
later first none = first
later first (some a) = some a

pub arlon_cluster : String → List Application → Option Application
arlon_cluster k [] = none
arlon_cluster k (a ∷ l) = later (if a.name == k then some a else none) (arlon_cluster k l)

-- The annotation that counts for an Argo CD cluster: that of its Arlon cluster if it has one.
abbrev pub annotation_by : Option Application → ArgoCluster → String
annotation_by none c = own_annotation c.annotations
annotation_by (some a) c = own_annotation a.annotations

pub arlon_cluster-name :
    (k : String) (l : List Application) (a : Application) → arlon_cluster k l ≡ some a → a.name ≡ k
unfolding arlon_cluster
arlon_cluster-name k [] a h = ground arith
arlon_cluster-name k (x ∷ l) a h = ground (arith, arlon_cluster-name k l a)

lookup-foldl :
    (k : String) (l : List Application) (m : Map Application)
    → lookup k (foldl (λ m a. insert a.name a m) m l) ≡ later (lookup k m) (arlon_cluster k l)
unfolding arlon_cluster
lookup-foldl k [] m = refl
lookup-foldl k (a ∷ l) m =
    ground (arith, lookup-foldl k l (insert a.name a m), lookup-insert k a.name a m)

pub lookup-arlon_cluster_map :
    (k : String) (l : List Application) → lookup k (arlon_cluster_map l) ≡ arlon_cluster k l
unfolding arlon_cluster_map lookup
lookup-arlon_cluster_map k l = ground (arith, lookup-foldl k l [])

abbrev uses : List Application → String → ArgoCluster → Bool
uses arlon p c = names_profile (annotation_by (arlon_cluster c.name arlon) c) p

-- Whether some listed cluster of this name uses the profile.
abbrev pub cluster_uses : List Application → List ArgoCluster → String → String → Bool
cluster_uses arlon clusters p j = any (λ c. uses arlon p c && c.name == j) clusters

-- What the loop makes of one cluster: the annotation that counts for it is its own now, nothing
-- else has changed, and one with no Arlon cluster is as it was.
pub record Mirrors (arlon : List Application) (c c' : ArgoCluster) : Type 0 where
  pub name : c'.name ≡ c.name
  pub server : c'.server ≡ c.server
  pub annotation : own_annotation c'.annotations ≡ annotation_by (arlon_cluster c.name arlon) c
  pub others :
      (k : String)
      → k ≢ profiles_annotation_key
      → lookup k (or_empty c'.annotations) ≡ lookup k (or_empty c.annotations)
  pub external : arlon_cluster c.name arlon ≡ none → c' ≡ c

annotation_by-Mirrors :
    (arlon : List Application) (c c' : ArgoCluster)
    → Mirrors arlon c c'
    → annotation_by (arlon_cluster c'.name arlon) c' ≡ annotation_by (arlon_cluster c.name arlon) c
annotation_by-Mirrors arlon c c' m = elim (Option-cases (arlon_cluster c.name arlon)) [
  | inl e ↦ rw (m.external e)
  | inr (a, e) ↦ rw (m.name, e)
]

-- Mirroring the annotations does not change which cluster uses which profile.
pub cluster_uses-Mirrors :
    (arlon : List Application) (cs cs' : List ArgoCluster) (p j : String)
    → Related (Mirrors arlon) cs cs'
    → cluster_uses arlon cs' p j ≡ cluster_uses arlon cs p j
cluster_uses-Mirrors arlon [] [] p j r = refl
cluster_uses-Mirrors arlon [] (c' ∷ cs') p j r = elim r [ ]
cluster_uses-Mirrors arlon (c ∷ cs) [] p j r = elim r [ ]
cluster_uses-Mirrors arlon (c ∷ cs) (c' ∷ cs') p j (m, r) =
    rw (annotation_by-Mirrors arlon c c' m, m.name, cluster_uses-Mirrors arlon cs cs' p j r)

module _ (S : Sets) (L : IsLawful S) where
  abbrev pub members : Option S.Set → String → Bool
  members none j = false
  members (some s) j = S.contains s j

  pub contains-or_new : (o : Option S.Set) (j : String) → S.contains (or_new S o) j ≡ members o j
  contains-or_new none j = L.contains-empty j
  contains-or_new (some s) j = refl

  members-add_cluster :
      (c : String) (ps : List String) (m : Map S.Set) (p j : String)
      → members (lookup p (add_cluster S c ps m)) j
        ≡ (members (lookup p m) j || (elem p ps && c == j))
  unfolding add_cluster
  members-add_cluster c [] m p j = ground arith
  members-add_cluster c (x ∷ ps) m p j =
      let s = S.add (or_new S (lookup x m)) c in
      ground (
        arith,
        members-add_cluster c ps (insert x s m) p j,
        lookup-insert p x s m,
        L.contains-add (or_new S (lookup x m)) c j,
        contains-or_new (lookup x m) j,
      )

  pub members-update_profile_to_clusters_map :
      (c names : String) (m : Map S.Set) (p j : String)
      → members (lookup p (update_profile_to_clusters_map S c names m)) j
        ≡ (members (lookup p m) j || (names_profile names p && c == j))
  unfolding update_profile_to_clusters_map
  members-update_profile_to_clusters_map c names m p j =
      ground (arith, members-add_cluster c (split comma names) m p j)

  -- One round of the loop adds its cluster to the profiles that its annotation names.
  members-reconcile_cluster :
      (m : Map Application) (t : Tables S) (c : ArgoCluster) (p j : String)
      → ((a : Application) → lookup c.name m ≡ some a → a.name ≡ c.name)
      → members (lookup p (reconcile_cluster S m t c).1.profile_to_clusters) j ≡ (
          members (lookup p t.profile_to_clusters) j
          || (names_profile (annotation_by (lookup c.name m) c) p && c.name == j))
  unfolding reconcile_cluster
  members-reconcile_cluster m t c p j named = elim (Option-cases (lookup c.name m)) [
    | inl e ↦ ground (
      arith,
      members-update_profile_to_clusters_map c.name (own_annotation c.annotations)
          t.profile_to_clusters p j,
    )
    | inr (a, e) ↦ ground (
      arith,
      named a e,
      members-update_profile_to_clusters_map a.name (own_annotation a.annotations)
          t.profile_to_clusters p j,
    )
  ]

  named_by_map :
      (arlon : List Application) (k : String) (a : Application)
      → lookup k (arlon_cluster_map arlon) ≡ some a
      → a.name ≡ k
  named_by_map arlon k a h =
      arlon_cluster-name k arlon a (sym (lookup-arlon_cluster_map k arlon) ∙ h)

  abbrev pub tables_after : List Application → List ArgoCluster → Tables S → Tables S
  tables_after arlon clusters t =
      foldl (λ t c. (reconcile_cluster S (arlon_cluster_map arlon) t c).1) t clusters

  -- After the loop, the set of a profile holds exactly the clusters that use it.
  pub members-collect :
      (arlon : List Application) (clusters : List ArgoCluster) (t : Tables S) (p j : String)
      → members (lookup p (tables_after arlon clusters t).profile_to_clusters) j
        ≡ (members (lookup p t.profile_to_clusters) j || cluster_uses arlon clusters p j)
  members-collect arlon [] t p j = ground arith
  members-collect arlon (c ∷ clusters) t p j = ground (
    arith,
    members-collect arlon clusters (reconcile_cluster S (arlon_cluster_map arlon) t c).1 p j,
    members-reconcile_cluster (arlon_cluster_map arlon) t c p j (named_by_map arlon c.name),
    lookup-arlon_cluster_map c.name arlon,
  )

  abbrev pub round : List Application → Tables S → ArgoCluster → Option ArgoCluster × Tables S
  round arlon = reconcile_cluster S (arlon_cluster_map arlon)

  pub reconcile_cluster-Mirrors :
      (arlon : List Application) (t : Tables S) (c : ArgoCluster)
      → Mirrors arlon c (get_or (round arlon t c).0 c)
  unfolding reconcile_cluster
  reconcile_cluster-Mirrors arlon t c =
      let annotations = or_empty c.annotations in
      let found = lookup-arlon_cluster_map c.name arlon in
      let key = profiles_annotation_key in
      record {
        name = ground (arith, found);
        server = ground (arith, found);
        annotation = elim (Option-cases (arlon_cluster c.name arlon)) [
          | inl e ↦ ground (arith, found)
          | inr (a, e) ↦ ground (
            arith,
            found,
            lookup-insert key key (own_annotation a.annotations) annotations,
            lookup-erase key key annotations,
          )
        ];
        others = λ k h. elim (Option-cases (arlon_cluster c.name arlon)) [
          | inl e ↦ ground (arith, found)
          | inr (a, e) ↦ ground (
            arith,
            found,
            lookup-insert k key (own_annotation a.annotations) annotations,
            lookup-erase k key annotations,
          )
        ];
        external = λ e. ground (arith, found);
      }

  round_clean :
      (arlon : List Application) (t : Tables S) (c : ArgoCluster)
      → own_annotation c.annotations ≡ annotation_by (arlon_cluster c.name arlon) c
      → (round arlon t c).0 ≡ none
  unfolding reconcile_cluster
  round_clean arlon t c h = ground (arith, lookup-arlon_cluster_map c.name arlon)

  -- The clusters as the loop leaves them, in the order that they had.
  pub written-Mirrors :
      (arlon : List Application) (t : Tables S) (clusters : List ArgoCluster)
      → Related (Mirrors arlon) clusters (written (round arlon) t clusters)
  written-Mirrors arlon t [] = tt
  written-Mirrors arlon t (c ∷ clusters) =
      (reconcile_cluster-Mirrors arlon t c, written-Mirrors arlon (round arlon t c).1 clusters)

  -- Mirrored clusters are clean: a second loop over them writes none of them.
  pub Quiet-Mirrors :
      (arlon : List Application) (t : Tables S) (cs cs' : List ArgoCluster)
      → Related (Mirrors arlon) cs cs'
      → Quiet (round arlon) t cs'
  Quiet-Mirrors arlon t [] [] r = tt
  Quiet-Mirrors arlon t [] (c' ∷ cs') r = elim r [ ]
  Quiet-Mirrors arlon t (c ∷ cs) [] r = elim r [ ]
  Quiet-Mirrors arlon t (c ∷ cs) (c' ∷ cs') (m, r) = (
    round_clean arlon t c' (m.annotation ∙ sym (annotation_by-Mirrors arlon c c' m)),
    Quiet-Mirrors arlon (round arlon t c').1 cs cs' r,
  )
