-- ===== src/Controllers/CallHome/External.antt =====
-- What the controller of call home configurations calls.
use arlon.Prelude.{String, Option, List}
use arlon.Go.Exec.{Result, Exec}
use arlon.Go.Map.{Map, StringMap}
use arlon.Controllers.{Reply}

-- api/v1/callhomeconfig_types.go
pub record CallHomeConfig : Type 0 where
  pub namespace : String
  pub service_account_name : String
  pub kubeconfig_secret_name : String
  pub kubeconfig_secret_key_name : String
  pub target_namespace : String
  pub target_secret_name : String
  pub target_secret_key_name : String
  pub management_cluster_url : String
  pub state : String
  pub message : String

pub record Secret : Type 0 where
  pub annotations : Option StringMap
  pub contents : Map String

pub record ClusterEntry : Type 0 where
  pub server : String
  pub certificate_authority_data : String

pub record ContextEntry : Type 0 where
  pub cluster : String
  pub auth_info : String

pub record KubeConfig : Type 0 where
  pub clusters : Map ClusterEntry
  -- the token of each user
  pub auth_infos : StringMap
  pub contexts : Map ContextEntry
  pub current_context : String

pub record Api : Type 1 where
  pub World : Type 0
  pub Config : Type 0
  pub Clientset : Type 0
  pub get_config : World → Reply CallHomeConfig
  pub update_status : CallHomeConfig → Exec World (Unit {0})
  -- in the namespace of the request
  pub get_secret : String → World → Reply Secret
  pub get_service_account : String → World → Reply (Unit {0})
  pub list_secrets : World → Result (List Secret)
  pub rest_config : String → Result Config
  pub new_clientset : Config → Result Clientset
  -- in a namespace of the workload cluster, by name
  pub get_target : Clientset → String → String → World → Reply (Unit {0})
  -- with a name, and the contents
  pub create_target : Clientset → String → String → StringMap → Exec World (Unit {0})
  -- `clientcmd.Write`
  pub serialize : KubeConfig → Result String
