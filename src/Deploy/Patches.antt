-- ===== src/Deploy/Patches.antt =====
-- The patches of a cluster that overrides its base cluster: CopyPatchManifests in
-- pkg/gitutils/manifests.go, DeployPatchToGit in pkg/cluster/git.go and CreatePatchDir in
-- pkg/cluster/create.go.
use arlon.Prelude.{if◌then◌else◌, String, ◌<>◌, ◌≡◌, Bool, List, [], ◌∷◌, string_eq}
use arlon.Go.Exec.{wrap, ◌>>=ᵣ◌, Result, ok, err, Exec, ◌>>=◌, ◌>>◌, reads, wrapped}
use arlon.Go.Map.{StringMap}
use arlon.Go.Path.{join}
use arlon.BaseCluster.Data.{configurations_yaml}
use arlon.Clusters.Paths.{cluster_path_from_base_path}
use arlon.Deploy.{remove_old}
use arlon.Git.Laws.{Added}
use arlon.Git.{FileStatus, RepoCreds, Git, get_repo_creds_from_argocd, clone_repo, commit_changes}

pub record KustomizeYaml : Type 0 where
  pub api_version : String
  pub kind : String
  pub resources : List String
  pub configurations : List String
  pub patches : List String

-- The YAML encoder, and Go's templates: a text is parsed, and executed.
pub record Encoder : Type 0 where
  pub marshal : KustomizeYaml → Result String
  pub parse : String → Result (Unit {0})
  pub execute : String → Result String

unfoldable pub kustomization :
    (base_repo_url base_repo_path base_repo_revision : String) → KustomizeYaml
kustomization base_repo_url base_repo_path base_repo_revision = record {
  api_version = "kustomize.config.k8s.io/v1beta1";
  kind = "Kustomization";
  resources =
      ("git::" <> (base_repo_url <> ("//" <> (base_repo_path <> ("?ref=" <> base_repo_revision)))))
      ∷ [];
  configurations = "configurations.yaml" ∷ [];
  patches = "patches.yaml" ∷ [];
}

module _ (git : Git) (encoder : Encoder) where
  -- The error of an execution is not told.
  abbrev executed : String → Result String
  executed text = elim (encoder.execute text) [
    | ok rendered ↦ ok rendered
    | err _ ↦ err "failed to execute kustomization.yaml manifest"
  ]

  unfoldable pub write_rendered : String → String → Exec git.World (Unit {0})
  write_rendered path rendered w = elim (git.write path rendered w).0 [
    | ok _ ↦ (ok tt, (git.write path rendered w).1)
    | err _ ↦ (err "failed to execute kustomization.yaml manifest", (git.write path rendered w).1)
  ]

  unfoldable pub copy_patch_manifests :
      (patch_content cluster_path base_repo_url base_repo_path base_repo_revision : String)
      → Exec git.World (Unit {0})
  unfolding kustomization write_rendered
  copy_patch_manifests patch_content cluster_path base_repo_url base_repo_path base_repo_revision =
      wrapped "Failed to marshal the kustomization file: " (
        reads
          (λ _. encoder.marshal (kustomization base_repo_url base_repo_path base_repo_revision)))
      >>= λ text.
          wrapped "failed to create kustomization template: " (reads (λ _. encoder.parse text))
          >> wrapped "failed to create kustomization.yaml: "
              (git.create (join cluster_path "kustomization.yaml"))
          >> reads (λ _. executed text)
          >>= λ rendered.
              write_rendered (join cluster_path "kustomization.yaml") rendered
              >> wrapped
                  ("failed to create destination file "
                    <> (join cluster_path "patches.yaml" <> ": "))
                  (git.create (join cluster_path "patches.yaml"))
              >> wrapped "failed to copy embedded file: "
                  (git.write (join cluster_path "patches.yaml") patch_content)

  -- The files of the patch, up to the push.
  unfoldable pub write_patch :
      RepoCreds
      → (cluster_name repo_url patch_repo_revision base_repo_revision base_path patch_content
          base_repo_url base_repo_path : String)
      → Exec git.World Bool
  unfolding copy_patch_manifests
  write_patch creds cluster_name repo_url patch_repo_revision base_repo_revision base_path
        patch_content base_repo_url base_repo_path =
      let cluster_path = cluster_path_from_base_path base_path cluster_name in
      let file = join cluster_path "configurations.yaml" in
      wrapped "failed to clone repo: " (clone_repo git creds repo_url patch_repo_revision)
      >>= λ tmp_dir.
          wrapped "failed to get repo worktree: " (reads git.worktree)
          >> remove_old git cluster_path
          >> wrapped "failed to copy embedded content: " (
              copy_patch_manifests patch_content cluster_path base_repo_url base_repo_path
                base_repo_revision)
          >> wrapped "failed to create configurations.yaml: " (git.create file)
          >> wrapped "failed to write to configurations.yaml: " (git.write file configurations_yaml)
          >> wrapped "failed to commit changes: " (
              commit_changes git tmp_dir
                ("deploy patches of the arlon cluster in " <> cluster_path))

  -- The push follows whether or not something was committed.
  unfoldable pub deploy_patch_to_git :
      RepoCreds
      → (cluster_name repo_url patch_repo_revision base_repo_revision base_path patch_content
          base_repo_url base_repo_path : String)
      → Exec git.World (Unit {0})
  unfolding write_patch
  deploy_patch_to_git creds cluster_name repo_url patch_repo_revision base_repo_revision base_path
        patch_content base_repo_url base_repo_path =
      write_patch creds cluster_name repo_url patch_repo_revision base_repo_revision base_path
        patch_content base_repo_url base_repo_path
      >>= λ _. wrapped "failed to push to remote repository: " (git.push creds)

  -- `kube_client` makes a client, `secrets` lists the repository secrets of Argo CD.
  unfoldable pub create_patch_dir :
      (kube_client : git.World → Result (Unit {0}))
      → (secrets : git.World → Result (List StringMap))
      → (cluster_name repo_url base_path patch_repo_revision base_repo_revision patch_content
          base_repo_url base_repo_path : String)
      → Exec git.World (Unit {0})
  unfolding deploy_patch_to_git
  create_patch_dir kube_client secrets cluster_name repo_url base_path patch_repo_revision
        base_repo_revision patch_content base_repo_url base_repo_path =
      reads (λ w. wrap "failed to get kube client: " (kube_client w) >>=ᵣ λ _.
      wrap "failed to get repo credentials: " (get_repo_creds_from_argocd (secrets w) repo_url))
      >>= λ creds. wrapped "failed to deploy git tree: " (
          deploy_patch_to_git creds cluster_name repo_url patch_repo_revision base_repo_revision
            base_path patch_content base_repo_url base_repo_path)

  -- The files of a patch were written: a clone, from which the old directory was removed; then the
  -- kustomization and the patch, and the configurations. The changed files were added to the index,
  -- those that are staged as deleted or are broken links passed over. If one at least was added it
  -- was committed.
  pub record IsWritten (creds : RepoCreds)
      (cluster_name repo_url patch_repo_revision base_repo_revision base_path patch_content
        base_repo_url base_repo_path : String)
      (w : git.World) (changed : Bool) (w' : git.World) : Type 0 where
    pub tmp_dir : String
    pub cloned : git.World
    pub removed : git.World
    pub copied : git.World
    pub configured : git.World
    pub filled : git.World
    pub statuses : List FileStatus
    pub indexed : git.World
    pub clone : clone_repo git creds repo_url patch_repo_revision w ≡ (ok tmp_dir, cloned)
    pub remove :
        remove_old git (cluster_path_from_base_path base_path cluster_name) cloned
        ≡ (ok tt, removed)
    pub copy :
        copy_patch_manifests patch_content
          (cluster_path_from_base_path base_path cluster_name)
          base_repo_url
          base_repo_path
          base_repo_revision
          removed
        ≡ (ok tt, copied)
    pub create :
        git.create
          (join (cluster_path_from_base_path base_path cluster_name) "configurations.yaml")
          copied
        ≡ (ok tt, configured)
    pub write :
        git.write
          (join (cluster_path_from_base_path base_path cluster_name) "configurations.yaml")
          configurations_yaml
          configured
        ≡ (ok tt, filled)
    pub status : git.status filled ≡ ok statuses
    pub adds : Added git tmp_dir statuses changed filled indexed
    pub commits :
        if changed
        then git.commit
            ("deploy patches of the arlon cluster in "
              <> cluster_path_from_base_path base_path cluster_name)
            indexed
          ≡ (ok tt, w')
        else w' ≡ indexed
