-- ===== src/Lib.antt =====
-- A verification library for Arlon, which manages workload clusters, the applications on them and
-- the profiles that bind the two, on top of Kubernetes, Argo CD and git. It models the controllers,
-- the part of Arlon that runs by itself, and the packages that its commands call: clusters and their
-- specifications, base clusters, bundles, profiles, git and the aliases of git repositories.
--
-- How the program works. Arlon's resources (clusters, app profiles, registrations, call home
-- configurations) stand in Kubernetes. For each kind a reconciler (controllers/) is called with the
-- name of a resource that has changed, or again after a delay. A cluster becomes two applications of
-- Argo CD. Separately, one global reconciliation (pkg/appprofile/reconcile.go) reads all clusters,
-- profiles and apps, copies the profile annotation of Arlon's clusters to those of Argo CD, checks
-- the app names of each profile, and writes to each app (an ApplicationSet) the clusters that it is
-- deployed to. The commands work on three more kinds of object in Kubernetes: cluster specifications
-- (config maps), bundles (secrets) and profiles (config maps in the old form, resources in the new
-- one). A cluster of the first generation is one root application that is made of a specification
-- and a profile; a cluster of the second generation copies a base cluster, a manifest that was
-- prepared and validated in git; an external cluster is a secret of Argo CD with Arlon's label.
--
-- The files, and what they model:
--   Prelude                 shared names; equality tests, lists
--   Go/Exec                 `(value, error)` results, and calls that change the outside world
--   Go/Map, Go/Sets         maps with string keys, and the set interface of golang-set with its
--                           documented laws; Go/Sets/Lists fills the interface
--   Go/Strings, Go/Strconv  strings.Split and appends; Atoi, Itoa and ParseBool on 64 bits, with
--                           their round trip
--   Go/Sort, Go/Path        sort.Strings; path.Clean and path.Join; Go/Path/Plain on paths whose
--                           components have nothing to clean
--   Go/Loop                 a loop over listed resources that writes back the dirty ones
--   Argo                    the fields of Argo CD's resources that the program uses
--   AppProfile              pkg/appprofile/reconcile.go. `reconcile_everything` is
--                           ReconcileEverything: its reads, then `cluster_loop`, `profile_loop` and
--                           `app_loop`, whose bodies are `reconcile_cluster`, `reconcile_profile`
--                           and `reconcile_app`
--     External              the calls of Kubernetes, Argo CD and the JSON decoder, as a record
--     Clusters, Profiles, Apps
--                           the specification of each loop, and the proof of its body
--     Deployment            which clusters an app is to be deployed to, told without the maps
--     Everything, Rounds, Convergence
--                           the call as a whole
--     Memory, Tests         an API in four lists; runs and examples
--   Controllers             what the reconcilers share: answers, outcomes, error handling
--     Cluster               controllers/cluster_controller.go (Reconcile, UpdateState,
--                           reconcileDelete)
--     Registration          controllers/clusterregistration_controller.go
--     CallHome              controllers/callhomeconfig_controller.go
--     Watches               the controllers of app profiles, applications and application sets,
--                           which decide whether to reconcile everything
--   GitRepo                 pkg/gitrepo/gitrepo.go, and the commands of cmd/gitrepo/register.go and
--                           unregister.go: aliases of git repositories, in a JSON file
--     Aliases               sequences of these commands, and what they keep in the file
--   ClusterApps             pkg/cluster/root_app.go and pkg/cluster/cluster_app.go: the applications
--                           that are created for a cluster
--     FromSpec              the same with the specifications of ClusterSpec
--   ClusterSpec             pkg/clusterspec/clusterspec.go and utils.go: a specification and its
--                           config map
--     Values, Calls         the values that are valid; get, create, update and delete
--   BaseCluster             pkg/basecluster/validate.go and prepare.go on one manifest
--     Data, Dir             pkg/basecluster/data.go and errors.go; the same on a directory in git
--     Resources, Manifest, Accepted
--                           that what was prepared is valid
--   Bundles                 pkg/bundle: the secrets that hold bundles
--   Profiles                pkg/profile: profiles and the merge of their overrides; `Calls` is what
--                           reads and writes them
--   Git                     pkg/argocd/repo.go and pkg/gitutils/gitutils.go: credentials, clones and
--                           commits
--   Clusters                pkg/cluster/get.go, list.go and types.go
--     Paths                 pkg/cluster/util.go
--     Managed, Release      pkg/cluster/external.go and profile_app.go: external clusters; the two
--                           commands one after the other
--     Changes               pkg/cluster/create.go, update.go, delete.go, ngupdate.go and
--                           set_appprofiles.go
--   Deploy                  pkg/gitutils/bundles.go, and what writes the files of clusters and profiles
--                           to git: pkg/cluster/git.go (DeployToGit), pkg/profile/git.go and the end
--                           of pkg/cluster/delete.go
--     Patches               pkg/gitutils/manifests.go (CopyPatchManifests), DeployPatchToGit and
--                           CreatePatchDir
--
-- How the models correspond to the code. A resource is a record of the fields that the code uses. A
-- function that returns `(T, error)` and has effects is an `Exec`: it takes the outside world and
-- gives the result and the next world, so that what was done before an error stays done. The world
-- is a parameter: a record `Api` holds its type and each call that leaves the program, and theorems
-- name the laws of these calls that they use. A chain of early returns is a chain of small functions,
-- each named for its stage; `attempt` is a call with the handling of its error. A range over a slice
-- is a fold or a recursion on the list; a map is an association list, and no result depends on its
-- order. A nil map is `none` where the code tells it from an empty one; the data of a secret that
-- holds a bundle is nil when it is empty, as Kubernetes answers it. Where the code writes into a nil
-- map or follows a nil pointer, the result is an `err` with the message of Go's runtime (`nil_map`
-- and `nil_pointer` in Go/Exec), and nothing after it is done.
--
-- Bounds. All loops are over finite lists and are structural recursion. The only fuel is that of
-- `digits` in Go/Strconv, which `format_uint` gives the number itself and one; more changes nothing.
-- An `int` is an integer whose parse and print are shown to agree within 64 bits.
--
-- Not modelled: logging; closing of connections; the mutex of ReconcileEverything, which lets one
-- call run at a time; NewClusterClientOrDie ends the process on an error, and is taken to succeed.
-- JSON, YAML, git, Kubernetes and Argo CD are parameters. In the commands of git repositories an
-- error that ends the process (CheckError) is an error result. For the controllers the packages
-- cluster, basecluster and argocd are parameters too, and for Clusters and Profiles what
-- Deploy models. Go's templates and the copy of the embedded charts (CopyManifests) are parameters.
-- The web hook, the installation and the rest of the command line are not part of
-- this library.

mod Prelude
pub mod Go
pub mod Argo
pub mod AppProfile
pub mod Controllers
pub mod GitRepo
pub mod ClusterApps
pub mod ClusterSpec
pub mod BaseCluster
pub mod Bundles
pub mod Profiles
pub mod Git
pub mod Clusters
pub mod Deploy
