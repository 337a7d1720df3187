-- ===== src/Clusters/External.antt =====
-- What pkg/cluster calls: Argo CD's applications, the secrets of its clusters, and the packages that
-- write to git.
use arlon.Prelude.{ℕ, String, Option, List}
use arlon.Go.Exec.{Result, Exec}
use arlon.Go.Map.{StringMap}
use arlon.Argo.{Application}
use arlon.Bundles.{Bundle}
use arlon.ClusterSpec.{ConfigMap}
use arlon.Git.{RepoCreds}
use arlon.Profiles.{Profile}

-- The answer of Argo CD on an application: an error may carry a gRPC status code.
pub data Answer : Type 0 where
  found : Application → Answer
  failed : Option ℕ → String → Answer

-- The secret of a cluster in Argo CD. `cluster` is `Data["name"]`, empty where it is missing. A nil
-- map is `none`.
pub record ClusterSecret : Type 0 where
  pub name : String
  pub cluster : String
  pub labels : Option StringMap
  pub annotations : Option StringMap

-- `deploy_to_git` and `delete_overrides` are DeployToGit and the git part of DeleteOverridesDir, with
-- the arguments that vary.
pub record Api : Type 1 where
  pub World : Type 0
  pub kube_client : World → Result (Unit {0})
  pub app_client : World → Result (Unit {0})
  pub cluster_client : World → Result (Unit {0})
  pub runtime_client : World → Result (Unit {0})
  pub get_app : String → World → Answer
  pub list_apps : String → World → Result (List Application)
  pub create_app : Application → Exec World (Unit {0})
  pub update_app : Application → Exec World (Unit {0})
  pub delete_app : String → Exec World (Unit {0})
  pub get_cluster : String → World → Result (Unit {0})
  pub list_secrets : String → World → Result (List ClusterSecret)
  pub get_secret : String → World → Result ClusterSecret
  pub patch_secret : ClusterSecret → Exec World (Unit {0})
  pub get_config_map : String → World → Result ConfigMap
  pub get_profile : String → World → Result Profile
  pub get_bundles : List String → World → Result (List Bundle)
  pub repo_secrets : World → Result (List StringMap)
  pub deploy_to_git :
      RepoCreds
      → List Bundle
      → (cluster_name repo_url repo_branch base_path : String) → Option Profile
      → Exec World (Unit {0})
  pub delete_overrides :
      RepoCreds → (repo_url repo_revision repo_path : String) → Exec World (Unit {0})
