-- ===== src/Controllers/Registration/External.antt =====
-- What the controller of cluster registrations calls.
use arlon.Prelude.{String, Bool, List}
use arlon.Go.Exec.{Result, Exec}
use arlon.Go.Map.{Map}
use arlon.Controllers.{Reply}

-- api/v1/clusterregistration_types.go
pub record Registration : Type 0 where
  pub name : String
  pub finalizers : List String
  -- a deletion timestamp is set
  pub deleting : Bool
  pub cluster_name : String
  pub kubeconfig_secret_name : String
  pub kubeconfig_secret_key_name : String
  pub state : String
  pub message : String

-- `ClusterQuery`: a name and a server.
pub record Query : Type 0 where
  pub name : String
  pub server : String

pub record Api : Type 1 where
  pub World : Type 0
  -- the contents of a secret's key, a client configuration, a client, a bearer token
  pub Bytes : Type 0
  pub Config : Type 0
  pub Clientset : Type 0
  pub Token : Type 0
  pub get_registration : World → Reply Registration
  pub new_patch_helper : Registration → World → Result (Unit {0})
  pub update_status : Registration → Exec World (Unit {0})
  -- the object as it was read, and as it is to be
  pub patch : Registration → Registration → Exec World (Unit {0})
  -- the server of a cluster that Argo CD knows
  pub get_cluster : Query → World → Result String
  pub delete_cluster : Query → Exec World (Unit {0})
  -- a new cluster's name, configuration and token; an old one is overwritten
  pub create_cluster : String → Config → Token → Exec World (Unit {0})
  -- the data of a secret in the namespace of the request
  pub get_secret : String → World → Reply (Map Bytes)
  pub rest_config : Bytes → Result Config
  pub new_clientset : Config → Result Clientset
  pub install_manager_rbac : Clientset → Exec World Token
  -- controllerutil
  pub contains_finalizer : List String → String → Bool
  pub add_finalizer : List String → String → List String
  pub remove_finalizer : List String → String → List String
