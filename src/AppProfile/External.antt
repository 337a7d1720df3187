-- ===== src/AppProfile/External.antt =====
-- What the reconciliation of app profiles calls: Kubernetes, Argo CD and the JSON decoder.
use arlon.Prelude.{String, List}
use arlon.Go.Exec.{Result, Exec}
use arlon.Argo.{ArgoCluster, Application, AppSet}

-- A value of a JSON object: a string, or anything else.
pub data Json : Type 0 where
  text : String → Json
  other : Json

-- api/v1/appprofile_types.go
pub record Profile : Type 0 where
  pub name : String
  pub app_names : List String
  pub health : String
  pub invalid_app_names : List String

pub record Api : Type 1 where
  pub World : Type 0
  pub new_cluster_client : World → Result (Unit {0})
  pub list_clusters : World → Result (List ArgoCluster)
  pub update_cluster : ArgoCluster → Exec World (Unit {0})
  pub new_application_client : World → Result (Unit {0})
  -- the applications that a label selector picks
  pub list_applications : String → World → Result (List Application)
  pub new_requirement : World → Result (Unit {0})
  -- the ApplicationSets of namespace argocd with label arlon-type=application
  pub list_app_sets : World → Result (List AppSet)
  pub update_app_set : AppSet → Exec World (Unit {0})
  pub list_profiles : World → Result (List Profile)
  pub update_profile_status : Profile → Exec World (Unit {0})
  -- the pairs of a JSON object
  pub unmarshal : String → Result (List (String × Json))
