-- ===== src/GitRepo/External.antt =====
-- What the commands on git repositories call: the configuration file, JSON, and Argo CD.
use arlon.Prelude.{String, List}
use arlon.Go.Exec.{Result, Exec}

pub record RepoCtx : Type 0 where
  pub url : String
  pub alias : String

pub record RepoCtxCfg : Type 0 where
  pub default : RepoCtx
  pub repos : List RepoCtx

pub record Api : Type 1 where
  pub World : Type 0
  -- the configuration file is there and can be opened; its contents
  pub open_file : World → Result (Unit {0})
  pub read_all : World → Result String
  pub truncate : Exec World (Unit {0})
  pub write : String → Exec World (Unit {0})
  pub unmarshal : String → Result RepoCtxCfg
  pub marshal : RepoCtxCfg → Result String
  pub prompt_password : World → Result String
  -- a repository's URL, user name and password
  pub validate_access : String → String → String → Exec World (Unit {0})
  -- gives the URL under which Argo CD knows the repository
  pub create_repository : String → String → String → Exec World String
