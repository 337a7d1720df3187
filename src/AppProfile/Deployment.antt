-- ===== src/AppProfile/Deployment.antt =====
-- Which clusters an app is deployed to, read off the resources alone, and how the maps of the loops
-- agree with it.
use arlon.Prelude.{
  String, ◌≡◌, refl, Bool, true, ◌&&◌, List, [], ◌∷◌, map, any, elem, arith, All, Related,
  string_eq,
}
use arlon.Go.Map.{Map, lookup, insert, lookup-insert, read}
use arlon.Go.Sets.{Sets, IsLawful, from_slice, contains-from_slice}
use arlon.Argo.{ArgoCluster, Application, AppSet}
use arlon.AppProfile.External.{Profile}
use arlon.AppProfile.{Tables, arlon_cluster_map, reconcile_cluster}
use arlon.AppProfile.Clusters.{Mirrors, cluster_uses, cluster_uses-Mirrors, members, tables_after}
use arlon.AppProfile.Profiles.{Checks, app_uses}
use arlon.AppProfile.Apps.{is_plain}

-- Whether an app is to be deployed to a cluster: some profile that names the app is used by a
-- cluster of that name.
abbrev pub deploys : List Application → List ArgoCluster → List Profile → String → String → Bool
deploys arlon clusters profiles a j =
    any (λ (p : Profile). elem a p.app_names && cluster_uses arlon clusters p.name j) profiles

abbrev pub app_names : List AppSet → List String
app_names = map (λ (a : AppSet). a.name)

-- The state after a reconciliation asks for the same deployments as the state before it.
pub deploys-Related :
    (arlon : List Application) (cs cs' : List ArgoCluster) (exists : String → Bool)
    (ps ps' : List Profile) (a j : String)
    → Related (Mirrors arlon) cs cs'
    → Related (Checks exists) ps ps'
    → deploys arlon cs' ps' a j ≡ deploys arlon cs ps a j
deploys-Related arlon cs cs' exists [] [] a j r q = refl
deploys-Related arlon cs cs' exists [] (p' ∷ ps') a j r q = elim q [ ]
deploys-Related arlon cs cs' exists (p ∷ ps) [] a j r q = elim q [ ]
deploys-Related arlon cs cs' exists (p ∷ ps) (p' ∷ ps') a j r (c, q) = rw (
  c.name,
  c.app_names,
  cluster_uses-Mirrors arlon cs cs' p.name j r,
  deploys-Related arlon cs cs' exists ps ps' a j r q,
)

-- Names and servers that stand for themselves in JSON.
abbrev pub PlainClusters : List ArgoCluster → Type 0
PlainClusters = All (λ (c : ArgoCluster). (is_plain c.name ≡ true) × (is_plain c.server ≡ true))

cluster_uses-plain :
    (arlon : List Application) (cs : List ArgoCluster) (p j : String)
    → PlainClusters cs
    → cluster_uses arlon cs p j ≡ true
    → is_plain j ≡ true
cluster_uses-plain arlon [] p j _ h = cc
cluster_uses-plain arlon (c ∷ cs) p j ((name, _), plain) h =
    ground (arith, cluster_uses-plain arlon cs p j plain)

pub deploys-plain :
    (arlon : List Application) (cs : List ArgoCluster) (ps : List Profile) (a j : String)
    → PlainClusters cs
    → deploys arlon cs ps a j ≡ true
    → is_plain j ≡ true
deploys-plain arlon cs [] a j plain h = cc
deploys-plain arlon cs (p ∷ ps) a j plain h =
    ground (arith, cluster_uses-plain arlon cs p.name j plain, deploys-plain arlon cs ps a j plain)

module _ (S : Sets) (L : IsLawful S) where
  servers-reconcile_cluster :
      (m : Map Application) (t : Tables S) (c : ArgoCluster)
      → (reconcile_cluster S m t c).1.clust_name_to_server
        ≡ insert c.name c.server t.clust_name_to_server
  unfolding reconcile_cluster
  servers-reconcile_cluster m t c = ground arith

  pub servers-plain :
      (arlon : List Application) (cs : List ArgoCluster) (t : Tables S) (k : String)
      → PlainClusters cs
      → is_plain (read t.clust_name_to_server k) ≡ true
      → is_plain (read (tables_after S L arlon cs t).clust_name_to_server k) ≡ true
  servers-plain arlon [] t k _ h = h
  servers-plain arlon (c ∷ cs) t k ((_, server), plain) h =
      let m = arlon_cluster_map arlon in
      servers-plain arlon cs (reconcile_cluster S m t c).1 k plain (
        rw (servers-reconcile_cluster m t c, lookup-insert k c.name c.server t.clust_name_to_server)
          (ground arith))

  -- The map that the loop over the profiles fills, for an app that exists.
  pub app_uses-deploys :
      (apps : List AppSet) (arlon : List Application) (cs : List ArgoCluster) (m : Map S.Set)
      → ((p j : String) → members S L (lookup p m) j ≡ cluster_uses arlon cs p j)
      → (ps : List Profile) (a j : String) → elem a (app_names apps) ≡ true
      → app_uses S L (from_slice S (app_names apps)) m ps a j ≡ deploys arlon cs ps a j
  app_uses-deploys apps arlon cs m h [] a j e = refl
  app_uses-deploys apps arlon cs m h (p ∷ ps) a j e = ground (
    arith,
    contains-from_slice S L (app_names apps) a,
    h p.name j,
    app_uses-deploys apps arlon cs m h ps a j e,
  )
