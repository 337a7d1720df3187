-- ===== src/BaseCluster/Dir.antt =====
-- validateDir and ValidateGitDir of pkg/basecluster/validate.go, prepareDir and PrepareGitDir of
-- prepare.go: directories of cluster templates, in a worktree.
use arlon.Prelude.{
  String, ◌<>◌, Bool, true, false, not, Option, none, some, List, [], ◌∷◌, ◌==◌, string_eq,
  if◌then◌else◌,
}
use arlon.Go.Exec.{Result, ok, err, Exec, pure, ◌>>=◌, ◌>>◌, ◌>>=ᵣ◌, wrap, reads, wrapped, continue}
use arlon.Go.Path.{join}
use arlon.Go.Strconv.{ℤ}
use arlon.Git.{RepoCreds, FileInfo, Git, clone_repo, commit_changes}
use arlon.BaseCluster.{Resource, Yaml, validate, prepare}
use arlon.BaseCluster.Data.{configurations_yaml, kustomization_yaml}

abbrev err_multiple_manifests : String
err_multiple_manifests = "multiple manifests found"

abbrev err_no_manifest : String
err_no_manifest = "failed to find cluster template manifest file"

abbrev err_no_kustomization_yaml : String
err_no_kustomization_yaml = "kustomization.yaml is missing"

abbrev err_no_configurations_yaml : String
err_no_configurations_yaml = "configurations.yaml is missing"

-- What the loop over a directory has found: the manifest, empty before it is found, and whether the
-- two files of kustomize are there.
pub record Found : Type 0 where
  pub manifest : String
  pub kustomization : Bool
  pub configurations : Bool

abbrev pub nothing : Found
nothing = record { manifest = ""; kustomization = false; configurations = false }

-- One file. `multiple` is the error for a second manifest.
unfoldable pub look_at : (String → String → String) → FileInfo → Found → Result Found
look_at multiple info found =
    if info.is_dir
    then err ("found subdirectory: " <> info.name)
    else if info.name == "kustomization.yaml"
    then ok (record found { kustomization = true })
    else if info.name == "configurations.yaml"
    then ok (record found { configurations = true })
    else if not (found.manifest == "")
    then err (multiple found.manifest info.name)
    else ok (record found { manifest = info.name })

unfoldable pub scan_dir : (String → String → String) → Found → List FileInfo → Result Found
unfolding look_at
scan_dir multiple found [] = ok found
scan_dir multiple found (info ∷ infos) =
    look_at multiple info found >>=ᵣ λ next. scan_dir multiple next infos

-- `manifest` reads the manifest at a path.
unfoldable pub validate_dir :
    (manifest : String → Result (List Resource)) → String → List FileInfo → Result String
unfolding scan_dir
validate_dir manifest dir_path infos =
    scan_dir (λ _ _. err_multiple_manifests) nothing infos >>=ᵣ λ found.
    if found.manifest == ""
    then err err_no_manifest
    else if not found.kustomization
    then err err_no_kustomization_yaml
    else if not found.configurations
    then err err_no_configurations_yaml
    else validate (manifest (join dir_path found.manifest))

module _ (git : Git) (yaml : Yaml) (manifest : String → git.World → Result (List Resource)) where
  unfoldable pub validate_git_dir :
      RepoCreds → (repo_url repo_revision repo_path : String) → Exec git.World String
  validate_git_dir creds repo_url repo_revision repo_path w =
      continue (wrapped "failed to clone repo: " (clone_repo git creds repo_url repo_revision) w)
        (λ tmp_dir v. (
          wrap "failed to get repo worktree: " (git.worktree v) >>=ᵣ λ _.
              wrap "failed to list repo directory: " (git.read_dir repo_path v) >>=ᵣ λ infos.
              validate_dir (λ file. manifest file v) (join tmp_dir repo_path) infos,
          git.remove_all tmp_dir v,
        ))

  -- The manifest is overwritten if there is a new one.
  unfoldable pub overwrite : String → Option String → Exec git.World (Unit {0})
  overwrite path none = pure tt
  overwrite path (some text) =
      wrapped "failed to open manifest for writing: " (git.open_truncated path)
      >> wrapped "failed to write to manifest: " (git.write path text)

  unfoldable pub ensure_file : Bool → String → String → String → Exec git.World (Unit {0})
  ensure_file there dir_path file text =
      if there
      then pure tt
      else wrapped ("failed to create " <> (file <> ": ")) (git.create (join dir_path file))
        >> wrapped ("failed to write to " <> (file <> ": ")) (git.write (join dir_path file) text)

  abbrev pub scan_to_prepare : List FileInfo → Result Found
  scan_to_prepare infos =
      scan_dir
        (λ first second. "multiple manifests found: (" <> (first <> (", " <> (second <> ")"))))
        nothing infos
      >>=ᵣ λ found. if found.manifest == "" then err err_no_manifest else ok found

  -- The name of the manifest and that of the cluster.
  unfoldable pub prepare_dir :
      (dir_path root_dir : String) → ℤ → ℤ → Exec git.World (String × String)
  unfolding overwrite ensure_file
  prepare_dir dir_path root_dir cas_max cas_min =
      wrapped "failed to list repo directory: " (reads (git.read_dir dir_path)) >>= λ infos.
      reads (λ _. scan_to_prepare infos) >>= λ found.
      wrapped "failed to prepare manifest: " (
        reads (λ w.
          prepare yaml (manifest (join root_dir (join dir_path found.manifest)) w) false cas_max
            cas_min))
      >>= λ prepared.
          overwrite (join dir_path found.manifest) prepared.1
          >> ensure_file found.kustomization dir_path "kustomization.yaml"
              (kustomization_yaml found.manifest)
          >> ensure_file found.configurations dir_path "configurations.yaml" configurations_yaml
          >> pure (found.manifest, prepared.0)

  -- The name of the cluster, and whether something was pushed.
  unfoldable pub prepare_worktree :
      RepoCreds → (repo_path tmp_dir : String) → ℤ → ℤ → Exec git.World (String × Bool)
  prepare_worktree creds repo_path tmp_dir cas_max cas_min =
      wrapped "failed to get repo worktree: " (reads git.worktree)
      >> wrapped "failed to prepare directory: " (prepare_dir repo_path tmp_dir cas_max cas_min)
      >>= λ done.
          wrapped "failed to commit changes: " (
            commit_changes git tmp_dir
              ("prepare cluster template files for " <> join repo_path done.0))
          >>= λ changed.
              if not changed
              then pure (done.1, false)
              else wrapped "failed to push to remote repository: " (git.push creds)
                >> pure (done.1, true)

  -- The temporary directory is removed when the clone could be made, whatever comes after.
  unfoldable pub prepare_git_dir :
      RepoCreds
      → (repo_url repo_revision repo_path : String) → ℤ
      → ℤ
      → Exec git.World (String × Bool)
  unfolding prepare_worktree
  prepare_git_dir creds repo_url repo_revision repo_path cas_max cas_min w =
      continue (wrapped "failed to clone repo: " (clone_repo git creds repo_url repo_revision) w)
        (λ tmp_dir v.
          let done = prepare_worktree creds repo_path tmp_dir cas_max cas_min v in
          (done.0, git.remove_all tmp_dir done.1))
