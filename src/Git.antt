-- ===== src/Git.antt =====
-- pkg/gitutils/gitutils.go and pkg/argocd/repo.go: clones of git repositories, the credentials that
-- Argo CD holds for them, and commits.
pub mod Laws
mod Tests
use arlon.Prelude.{
  String, ◌<>◌, Bool, true, false, not, ◌&&◌, ◌||◌, Option, none, some, List, [], ◌∷◌, ◌==◌,
  string_eq, if◌then◌else◌,
}
use arlon.Go.Exec.{Result, ok, err, Exec, pure, ◌>>=◌, ◌>>◌, ◌>>=ᵣ◌, wrap, reads, wrapped}
use arlon.Go.Map.{StringMap, read}
use arlon.Go.Path.{join}

pub record RepoCreds : Type 0 where
  pub url : String
  pub username : String
  pub password : String

-- A changed file of a worktree, and whether it is staged as deleted.
pub record FileStatus : Type 0 where
  pub file : String
  pub deleted : Bool

pub record FileInfo : Type 0 where
  pub name : String
  pub is_dir : Bool

-- go-git, the files of a worktree under paths relative to its root, and the operating system, whose
-- paths are absolute. `is_symlink` is an Lstat, `is_missing` a Stat that finds nothing.
pub record Git : Type 1 where
  pub World : Type 0
  pub mkdir_temp : Exec World String
  pub plain_clone : (dir url branch username password : String) → Exec World (Unit {0})
  pub remove_all : String → World → World
  pub worktree : World → Result (Unit {0})
  pub status : World → Result (List FileStatus)
  pub is_symlink : String → World → Result Bool
  pub is_missing : String → World → Bool
  pub add : String → World → World
  pub commit : String → Exec World (Unit {0})
  pub push : RepoCreds → Exec World (Unit {0})
  pub read_dir : String → World → Result (List FileInfo)
  pub lstat : String → World → Result FileInfo
  pub remove : String → Exec World (Unit {0})
  pub mkdir_all : String → Exec World (Unit {0})
  pub create : String → Exec World (Unit {0})
  pub open_truncated : String → Exec World (Unit {0})
  pub write : String → String → Exec World (Unit {0})

-- The first secret, in the order of the listing, whose URL is that of the repository. `secrets` is
-- the listing of Argo CD's repository secrets, by their data.
unfoldable pub find_creds : String → List StringMap → Option RepoCreds
find_creds repo_url [] = none
find_creds repo_url (s ∷ ss) =
    let rest = find_creds repo_url ss in
    if repo_url == read s "url"
    then some
        (record { url = read s "url"; username = read s "username"; password = read s "password" })
    else rest

unfoldable pub get_repo_creds_from_argocd : Result (List StringMap) → String → Result RepoCreds
unfolding find_creds
get_repo_creds_from_argocd secrets repo_url = wrap "failed to list secrets: " secrets >>=ᵣ λ items.
    elim (find_creds repo_url items) [
      | none ↦
          err
            ("did not find argocd repository matching " <> (repo_url <> " (did you register it?)"))
      | some creds ↦ ok creds
    ]

unfoldable pub get_kubeclient_and_repo_creds :
    Result (Unit {0}) → Result (List StringMap) → String → Result RepoCreds
get_kubeclient_and_repo_creds kube_client secrets repo_url =
    wrap "failed to get kubernetes client: " kube_client >>=ᵣ λ _.
    wrap "failed to get repository credentials from argocd: "
      (get_repo_creds_from_argocd secrets repo_url)

module _ (git : Git) where
  -- The directory that the repository was cloned to.
  unfoldable pub clone_repo : RepoCreds → String → String → Exec git.World String
  clone_repo creds repo_url repo_branch = git.mkdir_temp >>= λ tmp_dir.
      wrapped "failed to clone repository: "
        (git.plain_clone tmp_dir repo_url repo_branch creds.username creds.password)
      >> pure tmp_dir

  -- A broken symbolic link, which is never added.
  unfoldable pub is_broken : String → String → git.World → Result Bool
  is_broken tmp_dir file w =
      wrap ("failed to check if " <> (file <> " is a symlink: "))
        (git.is_symlink (join tmp_dir file) w)
      >>=ᵣ λ symlink. ok (symlink && git.is_missing (join tmp_dir file) w)

  -- The loop over the changed files.
  unfoldable pub add_all : String → Bool → List FileStatus → Exec git.World Bool
  unfolding is_broken
  add_all tmp_dir changed [] w = (ok changed, w)
  add_all tmp_dir changed (s ∷ ss) w =
      let same = add_all tmp_dir changed ss w in
      let added = add_all tmp_dir true ss (git.add s.file w) in
      if s.deleted then same else elim (is_broken tmp_dir s.file w) [
        | err e ↦ (err e, w)
        | ok broken ↦ if broken then same else added
      ]

  unfoldable pub commit_changes : String → String → Exec git.World Bool
  unfolding add_all
  commit_changes tmp_dir message =
      wrapped "failed to get worktree status: " (reads git.status) >>= λ status.
      add_all tmp_dir false status >>= λ changed.
      if not changed
      then pure false
      else wrapped "failed to commit change: " (git.commit message) >> pure true

  abbrev pub add_each : List FileStatus → git.World → git.World
  add_each [] w = w
  add_each (s ∷ ss) w = add_each ss (git.add s.file w)

  abbrev is_empty : List FileStatus → Bool
  is_empty [] = true
  is_empty (s ∷ ss) = false

  -- The same for a commit that may be made of deletions only: all changed files are added.
  unfoldable pub commit_delete_changes : String → Exec git.World Bool
  commit_delete_changes message =
      wrapped "failed to get worktree status: " (reads git.status) >>= λ status w.
      if is_empty status
      then (ok false, w)
      else (wrapped "failed to commit change: " (git.commit message) >> pure true)
          (add_each status w)

  -- A commit of what has changed, then a push if something has.
  unfoldable pub publish : RepoCreds → String → String → Exec git.World Bool
  unfolding commit_changes
  publish creds tmp_dir message =
      wrapped "failed to commit changes: " (commit_changes tmp_dir message) >>= λ changed.
      if not changed
      then pure false
      else wrapped "failed to push to remote repository: " (git.push creds) >> pure true
