-- ===== src/Argo.antt =====
-- The resources of Argo CD that the program reads and writes, with the fields that it uses.
use arlon.Prelude.{String, Bool, Option, List}
use arlon.Go.Map.{StringMap}

-- A workload cluster that is registered with Argo CD.
pub record ArgoCluster : Type 0 where
  pub name : String
  pub server : String
  pub annotations : Option StringMap

pub record HelmParameter : Type 0 where
  pub name : String
  pub value : String

pub record IgnoreDifference : Type 0 where
  pub group : String
  pub kind : String
  pub json_pointers : List String

pub record Source : Type 0 where
  pub repo_url : String
  pub path : String
  pub target_revision : String
  pub helm : Option (List HelmParameter)
  -- the name prefix that kustomize adds
  pub kustomize : Option String

pub record SyncPolicy : Type 0 where
  -- whether an automated sync prunes; none: no automated sync
  pub automated : Option Bool
  pub sync_options : List String

pub record Application : Type 0 where
  pub name : String
  pub namespace : String
  pub labels : StringMap
  pub annotations : Option StringMap
  pub finalizers : List String
  -- a deletion timestamp is set
  pub deleting : Bool
  pub source : Source
  pub server : String
  pub destination_namespace : String
  pub sync_policy : Option SyncPolicy
  pub ignore_differences : List IgnoreDifference

-- A generator of an ApplicationSet: the raw JSON elements of a list generator, or another kind.
pub record Generator : Type 0 where
  pub elements : Option (List String)

pub record AppSet : Type 0 where
  pub name : String
  pub namespace : String
  pub labels : Option StringMap
  pub generators : List Generator
