-- ===== src/Controllers/Cluster/External.antt =====
-- What the cluster controller calls: Kubernetes, Argo CD, and the packages that write to git and
-- create applications.
use arlon.Prelude.{ℕ, String, Bool, Option, List}
use arlon.Go.Exec.{Result, Exec}
use arlon.Go.Map.{StringMap}
use arlon.Argo.{Application}
use arlon.Controllers.{Reply}

-- api/v1/cluster_types.go
pub record RepoSpec : Type 0 where
  pub url : String
  pub path : String
  pub revision : String

pub record OverrideSpec : Type 0 where
  pub patch : String
  pub repo : RepoSpec

pub record Cluster : Type 0 where
  pub name : String
  pub annotations : Option StringMap
  pub finalizers : List String
  -- a deletion timestamp is set
  pub deleting : Bool
  pub cluster_template : RepoSpec
  pub override : Option OverrideSpec
  -- the host of the management cluster
  pub autoscaler : Option String
  pub arlon_helm_chart : Option RepoSpec
  pub state : String
  pub inner_cluster_name : String
  pub override_successful : Bool
  pub message : String

-- The answer of Argo CD to the name of an application: `coded` is an error with a gRPC status.
pub data AppReply : Type 0 where
  found : Application → AppReply
  coded : ℕ → AppReply
  uncoded : AppReply

-- The calls that change something outside the controller.
pub data Call : Type 0 where
  set_status : Cluster → Call
  -- the object as it was read, and as it is to be
  patch_cluster : Cluster → Cluster → Call
  -- the cluster's name, the override, and the template
  create_patch_dir : String → OverrideSpec → RepoSpec → Call
  -- the name, the inner name, the chart, the host of the management cluster, and whether to scale
  create_arlon_app : String → String → RepoSpec → String → Bool → Call
  -- the name, the inner name, the source, and whether it is an override
  create_cluster_app : String → String → RepoSpec → Bool → Call
  update_app : Application → Call
  delete_app : String → Call
  delete_overrides_dir : Application → Call

pub record Api : Type 1 where
  pub World : Type 0
  pub Creds : Type 0
  pub get_cluster : World → Reply Cluster
  pub new_patch_helper : Cluster → World → Result (Unit {0})
  pub new_application_client : World → Result (Unit {0})
  pub new_kube_client : World → Result (Unit {0})
  pub get_repo_creds : String → World → Result Creds
  pub validate_git_dir : Creds → RepoSpec → World → Result String
  pub get_app : String → World → AppReply
  pub perform : Call → Exec World (Unit {0})
  -- controllerutil
  pub contains_finalizer : List String → String → Bool
  pub add_finalizer : List String → String → List String
  pub remove_finalizer : List String → String → List String
