-- ===== src/GitRepo.antt =====
-- pkg/gitrepo/gitrepo.go and cmd/gitrepo: aliases of git repositories, kept in a JSON file. One of
-- them may be the default.
pub mod External
pub mod Laws
pub mod Aliases
mod Tests
use arlon.Prelude.{
  String, ◌<>◌, Bool, true, false, not, ◌&&◌, Option, none, some, List, [], ◌∷◌, ◌++◌, ◌==◌,
  string_eq, if◌then◌else◌,
}
use arlon.Go.Exec.{Result, ok, err, Exec, pure, fail, ◌>>=◌, ◌>>◌, reads, wrap, wrapped, ◌>>=ᵣ◌}
use External.{RepoCtx, RepoCtxCfg, Api}

abbrev pub default_ctx : String
default_ctx = "default"

abbrev pub no_ctx : RepoCtx
no_ctx = record { url = ""; alias = "" }

unfoldable pub alias_exists : List RepoCtx → String → Bool
alias_exists [] alias = false
alias_exists (r ∷ repos) alias =
    let rest = alias_exists repos alias in if r.alias == alias then true else rest

unfoldable pub find_repo : String → List RepoCtx → Option RepoCtx
find_repo alias [] = none
find_repo alias (r ∷ repos) =
    let rest = find_repo alias repos in if not (r.alias == alias) then rest else some r

unfoldable pub get_alias : String → RepoCtxCfg → Option RepoCtx
get_alias alias cfg = if alias == default_ctx then some cfg.default else find_repo alias cfg.repos

abbrev pub url_of : Option RepoCtx → Result String
url_of none = err "given alias doesn't exist"
url_of (some r) = ok r.url

-- The first repository of the alias is left out; none: there is no such repository.
unfoldable pub remove_repo : String → List RepoCtx → Option (List RepoCtx)
remove_repo alias [] = none
remove_repo alias (r ∷ repos) =
    let rest = remove_repo alias repos in
    if not (r.alias == alias)
    then elim rest [ none ↦ none | some others ↦ some (r ∷ others) ]
    else some repos

abbrev pub with_repo : RepoCtx → RepoCtxCfg → RepoCtxCfg
with_repo r cfg = record {
  default = if r.alias == default_ctx then r else cfg.default;
  repos = cfg.repos ++ r ∷ [];
}

abbrev pub without_repo : String → List RepoCtx → RepoCtxCfg → RepoCtxCfg
without_repo alias others cfg = record {
  default = if alias == default_ctx then no_ctx else cfg.default;
  repos = others;
}

module _ (A : Api) where
  open A use {World}

  abbrev pub load_repo_cfg : World → Result RepoCtxCfg
  load_repo_cfg w = elim (A.read_all w) [
    | err e ↦ err e
    | ok content ↦
        if content == "" then ok (record { default = no_ctx; repos = [] }) else A.unmarshal content
  ]

  unfoldable pub get_repo_url : String → World → Result String
  get_repo_url alias w = elim (A.open_file w) [
    | err e ↦ err e
    | ok _ ↦ elim (load_repo_cfg w) [
      | err e ↦ err ("given alias doesn't exist: " <> e)
      | ok cfg ↦ url_of (get_alias alias cfg)
    ]
  ]

  unfoldable pub store : RepoCtxCfg → Exec World (Unit {0})
  store cfg = do
    repo_data ← reads (λ _. A.marshal cfg)
    wrapped "cannot overwrite config file: " A.truncate
    wrapped "cannot overwrite config file: " (A.write repo_data)

  unfoldable pub add_repo : String → String → String → String → RepoCtxCfg → Exec World (Unit {0})
  add_repo url user password alias cfg = do
    A.validate_access url user password
    created ← A.create_repository url user password
    store (with_repo (record { url = created; alias = alias }) cfg)

  abbrev pub ask : String → String → Exec World String
  ask user password =
      if not (user == "") && password == "" then reads A.prompt_password else pure password

  unfoldable pub check_alias :
      String → String → String → String → RepoCtxCfg → Exec World (Unit {0})
  check_alias url user password alias cfg =
      if alias_exists cfg.repos alias
      then pure tt
      else if not (cfg.default.url == "") && alias == default_ctx
      then fail "default alias already exists"
      else add_repo url user password alias cfg

  -- An alias that exists is reported, without an error.
  unfoldable pub register : String → String → String → String → Exec World (Unit {0})
  register url user password alias = do
    secret ← ask user password
    reads A.open_file
    cfg ← wrapped "failed to load config file: " (reads load_repo_cfg)
    check_alias url user secret alias cfg

  unfoldable pub remove_alias : String → RepoCtxCfg → List RepoCtx → Exec World (Unit {0})
  remove_alias alias cfg [] = pure tt
  remove_alias alias cfg (r ∷ repos) = elim (remove_repo alias (r ∷ repos)) [
    | none ↦ fail "given alias doesn't exist"
    | some others ↦ store (without_repo alias others cfg)
  ]

  unfoldable pub unregister : String → Exec World (Unit {0})
  unregister alias = do
    reads A.open_file
    cfg ← wrapped "failed to load config file: " (reads load_repo_cfg)
    remove_alias alias cfg cfg.repos
