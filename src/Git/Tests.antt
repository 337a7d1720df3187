-- ===== src/Git/Tests.antt =====
-- A worktree of two changed files, in a world that is the log of the calls.
use arlon.Prelude.{String, ◌<>◌, ◌≡◌, refl, true, false, List, [], ◌∷◌, ◌++◌, string_eq}
use arlon.Go.Exec.{ok, err}
use arlon.Go.Map.{lookup}
use arlon.Git.{
  RepoCreds, FileStatus, Git, find_creds, get_repo_creds_from_argocd, is_broken, add_all,
  commit_changes, publish,
}
use arlon.Git.Laws.{Added, publish-Added}

abbrev changed_files : List FileStatus
changed_files =
    record { file = "old"; deleted = true } ∷ record { file = "new"; deleted = false } ∷ []

abbrev git : Git
git = record {
  World = List String;
  mkdir_temp = λ w. (ok "/tmp/arlon-1", w);
  plain_clone = λ dir url branch username password w. (ok tt, w);
  remove_all = λ dir w. w;
  worktree = λ w. ok tt;
  status = λ w. ok changed_files;
  is_symlink = λ file w. ok false;
  is_missing = λ file w. false;
  add = λ file w. w ++ ("add " <> file) ∷ [];
  commit = λ message w. (ok tt, w ++ ("commit " <> message) ∷ []);
  push = λ creds w. (ok tt, w ++ "push" ∷ []);
  read_dir = λ dir w. ok [];
  lstat = λ file w. err "not found";
  remove = λ file w. (ok tt, w);
  mkdir_all = λ dir w. (ok tt, w);
  create = λ file w. (ok tt, w);
  open_truncated = λ file w. (ok tt, w);
  write = λ file text w. (ok tt, w);
}

abbrev creds : RepoCreds
creds = record { url = "https://git"; username = "u"; password = "p" }

published :
    publish git creds "/tmp/arlon-1" "deploy" []
    ≡ (ok true, "add new" ∷ "commit deploy" ∷ "push" ∷ [])
unfolding publish commit_changes add_all is_broken
published = refl

publish-Added_example :
    (ss : List FileStatus) × (git.status [] ≡ ok ss)
    × ((u : List String) × Added git "/tmp/arlon-1" ss true [] u
        × ((x : List String) × (git.commit "deploy" u ≡ (ok tt, x))
            × (git.push creds x ≡ (ok tt, "add new" ∷ "commit deploy" ∷ "push" ∷ []))))
publish-Added_example =
    publish-Added git creds "/tmp/arlon-1" "deploy" [] ("add new" ∷ "commit deploy" ∷ "push" ∷ [])
      true published

first_secret :
    get_repo_creds_from_argocd
      (ok (
        (("url", "x") ∷ [])
        ∷ (("url", "https://git") ∷ ("username", "u") ∷ ("password", "p") ∷ [])
        ∷ []))
      "https://git"
    ≡ ok creds
unfolding get_repo_creds_from_argocd find_creds lookup string_eq
first_secret = refl
