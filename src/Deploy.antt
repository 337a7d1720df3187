-- ===== src/Deploy.antt =====
-- What renders files into the working tree of a git repository: pkg/gitutils/bundles.go, and the
-- writers of pkg/cluster/git.go, pkg/cluster/delete.go and pkg/profile/git.go.
pub mod Laws
pub mod Patches
mod Tests
use arlon.Prelude.{
  String, ◌<>◌, Bool, true, false, not, Option, none, some, List, [], ◌∷◌, ◌==◌, string_eq,
  if◌then◌else◌,
}
use arlon.Go.Exec.{Result, ok, err, Exec, pure, fail, ◌>>=◌, ◌>>◌, reads, wrapped}
use arlon.Go.Path.{join}
use arlon.Bundles.{Bundle}
use arlon.Clusters.Paths.{
  cluster_path_from_base_path, mgmt_path_from_cluster_path, workload_path_from_cluster_path,
}
use arlon.Git.{RepoCreds, Git, clone_repo, commit_delete_changes, publish}
use arlon.Profiles.{Profile, overrides_of}

pub record AppSettings : Type 0 where
  pub app_name : String
  pub cluster_name : String
  pub repo_url : String
  pub repo_path : String
  pub repo_revision : String
  pub src_type : String
  pub app_namespace : String
  pub destination_namespace : String
  pub overrides : List (String × String)

abbrev pub revision_of : Bundle → String
revision_of b = if b.repo_revision == "" then "HEAD" else b.repo_revision

abbrev pub dynamic_settings : String → List (String × String) → Bundle → AppSettings
dynamic_settings cluster_name overrides b = record {
  app_name = cluster_name <> ("-" <> b.name);
  cluster_name = cluster_name;
  repo_url = b.repo_url;
  repo_path = b.repo_path;
  repo_revision = revision_of b;
  src_type = b.src_type;
  app_namespace = "argocd";
  destination_namespace = "default";
  overrides = overrides;
}

abbrev pub static_settings : (cluster_name repo_url workload_path : String) → Bundle → AppSettings
static_settings cluster_name repo_url workload_path b = record {
  app_name = cluster_name <> ("-" <> b.name);
  cluster_name = cluster_name;
  repo_url = repo_url;
  repo_path = join workload_path b.name;
  repo_revision = revision_of b;
  src_type = "";
  app_namespace = "argocd";
  destination_namespace = "default";
  overrides = [];
}

-- The settings of a bundle's application; `overrides` is the map, read at the bundle's name. A
-- bundle that has both kinds or none is an error.
unfoldable pub app_settings :
    (cluster_name repo_url workload_path : String)
    → (overrides : String → List (String × String)) → Bundle
    → Result AppSettings
app_settings cluster_name repo_url workload_path overrides b = elim b.contents [
  | none ↦
      if b.repo_url == ""
      then err ("b " <> (b.name <> " is neither static nor dynamic type"))
      else ok (dynamic_settings cluster_name (overrides b.name) b)
  | some text ↦
      if not (b.repo_url == "")
      then err ("b " <> (b.name <> " has both data and repoUrl set"))
      else ok (static_settings cluster_name repo_url workload_path b)
]

module _ (git : Git) where
  -- Old data is removed; a path that is not there has none.
  unfoldable pub remove_old : String → Exec git.World (Unit {0})
  remove_old path w = elim (git.lstat path w) [
    | err _ ↦ (ok tt, w)
    | ok info ↦
        if not info.is_dir
        then (err ("unexpected file type for " <> path), w)
        else wrapped "failed to recursively delete cluster directory: " (git.remove path) w
  ]

-- `render` executes the template of a bundle's application; the template is a constant, which
-- parses.
module _ (git : Git) (render : AppSettings → Result String) where
  abbrev write_text : (path created written : String) → String → Exec git.World (Unit {0})
  write_text path created written text =
      wrapped created (git.create path) >> wrapped written (git.write path text)

  -- The manifest of a static bundle.
  unfoldable pub write_static : String → Bundle → Exec git.World (Unit {0})
  write_static workload_path b = elim b.contents [
    | none ↦ pure tt
    | some text ↦
        wrapped "failed to create directory in working tree: "
          (git.mkdir_all (join workload_path b.name))
        >> write_text (join (join workload_path b.name) (b.name <> ".yaml"))
            "failed to create file in working tree: "
            ("failed to copy static b " <> (b.name <> ": ")) text
  ]

  -- The application of a bundle, in the chart of the management files.
  unfoldable pub write_app : String → Bundle → AppSettings → Exec git.World (Unit {0})
  write_app mgmt_path b settings =
      let app_path = join (join mgmt_path "templates") (b.name <> ".yaml") in
      wrapped ("failed to create application file " <> (app_path <> ": ")) (git.create app_path)
      >> wrapped ("failed to render application template " <> (app_path <> ": "))
          (reads (λ _. render settings) >>= λ text. git.write app_path text)

  unfoldable pub process_bundles :
      (cluster_name repo_url mgmt_path workload_path : String)
      → (overrides : String → List (String × String)) → List Bundle
      → Exec git.World (Unit {0})
  unfolding write_static write_app app_settings
  process_bundles cluster_name repo_url mgmt_path workload_path overrides [] = pure tt
  process_bundles cluster_name repo_url mgmt_path workload_path overrides (b ∷ bs) =
      reads (λ _. app_settings cluster_name repo_url workload_path overrides b) >>= λ settings.
      write_static workload_path b
      >> write_app mgmt_path b settings
      >> process_bundles cluster_name repo_url mgmt_path workload_path overrides bs

  -- A clone of a repository whose tree is then made anew under a path; `copy_manifests` writes the
  -- embedded chart.
  unfoldable pub open_tree :
      RepoCreds
      → (repo_url revision path mgmt_path : String)
      → (copy_manifests : String → Exec git.World (Unit {0})) → Exec git.World String
  unfolding remove_old
  open_tree creds repo_url revision path mgmt_path copy_manifests =
      wrapped "failed to clone repo: " (clone_repo git creds repo_url revision) >>= λ tmp_dir.
      wrapped "failed to get repo worktree: " (reads git.worktree)
      >> remove_old git path
      >> wrapped "failed to copy embedded content: " (copy_manifests mgmt_path)
      >> pure tmp_dir

  -- pkg/profile/git.go
  unfoldable pub create_in_git :
      (copy_manifests : String → Exec git.World (Unit {0}))
      → RepoCreds
      → Profile
      → List Bundle
      → Exec git.World (Unit {0})
  unfolding open_tree
  create_in_git copy_manifests creds prof bundles =
      open_tree creds prof.repo_url prof.repo_revision prof.repo_path (join prof.repo_path "mgmt")
        copy_manifests
      >>= λ tmp_dir.
          wrapped "failed to process bundles: " (
            process_bundles "{{ .Values.clusterName }}" prof.repo_url (join prof.repo_path "mgmt")
              (join prof.repo_path "workload") (λ name. overrides_of name prof.overrides) bundles)
          >> publish git creds tmp_dir ("manage arlon profile " <> prof.repo_path)
          >> pure tt

  -- The application of a dynamic profile.
  unfoldable pub profile_settings :
      (cluster_name profile_name argocd_ns repo_url repo_path : String) → AppSettings
  profile_settings cluster_name profile_name argocd_ns repo_url repo_path = record {
    app_name = cluster_name <> ("-profile-" <> profile_name);
    cluster_name = cluster_name;
    repo_url = repo_url;
    repo_path = join repo_path "mgmt";
    repo_revision = "";
    src_type = "";
    app_namespace = argocd_ns;
    destination_namespace = argocd_ns;
    overrides = [];
  }

  -- `render_profile` executes its template.
  unfoldable pub process_dynamic_profile :
      (render_profile : AppSettings → Result String)
      → (cluster_name profile_name argocd_ns repo_url repo_path app_path : String)
      → Exec git.World (Unit {0})
  unfolding profile_settings
  process_dynamic_profile render_profile cluster_name profile_name argocd_ns repo_url repo_path
        app_path =
      wrapped ("failed to create application file " <> (app_path <> ": ")) (git.create app_path)
      >> wrapped ("failed to render application template " <> (app_path <> ": ")) (
          reads (λ _.
            render_profile
              (profile_settings cluster_name profile_name argocd_ns repo_url repo_path))
          >>= λ text. git.write app_path text)

  -- pkg/cluster/git.go
  unfoldable pub deploy_to_git :
      (copy_manifests : String → Exec git.World (Unit {0}))
      → (render_profile : AppSettings → Result String) → RepoCreds
      → (argocd_ns : String) → List Bundle
      → (cluster_name repo_url repo_branch base_path : String) → Profile
      → Exec git.World (Unit {0})
  unfolding open_tree process_dynamic_profile
  deploy_to_git copy_manifests render_profile creds argocd_ns bundles cluster_name repo_url
        repo_branch base_path prof =
      let cluster_path = cluster_path_from_base_path base_path cluster_name in
      let mgmt_path = mgmt_path_from_cluster_path cluster_path in
      open_tree creds repo_url repo_branch cluster_path mgmt_path copy_manifests >>= λ tmp_dir.
      (if not (prof.repo_url == "")
        then wrapped "failed to process dynamic profile: " (
            process_dynamic_profile render_profile cluster_name prof.name argocd_ns prof.repo_url
              prof.repo_path (join (join mgmt_path "templates") "profile.yaml"))
        else wrapped "failed to process bundles: " (
            process_bundles cluster_name repo_url mgmt_path
              (workload_path_from_cluster_path cluster_path)
              (λ name. overrides_of name prof.overrides) bundles))
      >> publish git creds tmp_dir ("deploy arlon cluster " <> cluster_path)
      >> pure tt

  -- pkg/cluster/delete.go, after the credentials; `repo_path` is the directory of overrides.
  unfoldable pub delete_overrides :
      RepoCreds → (repo_url repo_revision repo_path : String) → Exec git.World (Unit {0})
  delete_overrides creds repo_url repo_revision repo_path =
      wrapped "failed to clone repo: " (clone_repo git creds repo_url repo_revision)
      >> wrapped "failed to get working tree, " (reads git.worktree)
      >> wrapped "Failed to find the directory to delete: " (reads (git.lstat repo_path))
      >>= λ info.
          if not info.is_dir
          then fail ("unexpected file type for " <> repo_path)
          else wrapped "failed to recursively delete cluster directory: " (git.remove repo_path)
            >> wrapped "failed to commit changes: "
                (commit_delete_changes git ("Deleted the files regarding to " <> repo_path))
            >>= λ changed.
                if not changed
                then pure tt
                else wrapped "failed to push to remote repository: " (git.push creds)
