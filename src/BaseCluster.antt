-- ===== src/BaseCluster.antt =====
-- pkg/basecluster: the manifest of a cluster template. Here stands validate.go for one manifest,
-- and prepare.go's Prepare, which makes a manifest that Validate accepts.
pub mod Data
pub mod Dir
mod DirLaws
pub mod Laws
pub mod Resources
pub mod Manifest
pub mod Accepted
mod Tests
use arlon.Prelude.{
  String, ◌<>◌, Bool, true, false, not, ◌&&◌, ◌||◌, Option, none, some, List, [], ◌∷◌, ◌==◌,
  string_eq, if◌then◌else◌,
}
use arlon.Go.Exec.{Result, ok, err, wrap, ◌>>=ᵣ◌}
use arlon.Go.Map.{StringMap, insert, read, or_empty}
use arlon.Go.Strconv.{ℤ, itoa}

-- An unstructured resource: the parts that the code looks at, and the rest of it.
pub record Resource : Type 0 where
  pub kind : String
  pub name : String
  pub namespace : String
  pub annotations : Option StringMap
  pub body : String

abbrev pub err_multiple_clusters : String
err_multiple_clusters = "there are 2 or more clusters"

abbrev pub err_no_cluster_resource : String
err_no_cluster_resource = "no cluster resource found"

abbrev err_builder_failed_run : String
err_builder_failed_run = "builder failed to run"

abbrev err_resource_has_namespace : String
err_resource_has_namespace = "resource has a namespace defined"

-- The loop of `validate`: `found` is the name of the cluster, empty before it is found.
unfoldable pub validate_from : String → List Resource → Result String
validate_from found [] = if found == "" then err err_no_cluster_resource else ok found
validate_from found (r ∷ rs) =
    let same = validate_from found rs in
    let next = validate_from r.name rs in
    if not (r.namespace == "")
    then err (err_resource_has_namespace <> (": resource: " <> (r.name <> (", kind: " <> r.kind))))
    else if r.kind == "Cluster"
    then if not (found == "") then err err_multiple_clusters else next
    else same

-- `infos` is the reading of the manifest.
unfoldable pub validate : Result (List Resource) → Result String
unfolding validate_from
validate infos = elim infos [
  | err e ↦ err (err_builder_failed_run <> (": " <> e))
  | ok rs ↦ validate_from "" rs
]

abbrev pub cas_max_annotation : String
cas_max_annotation = "cluster.x-k8s.io/cluster-api-autoscaler-node-group-max-size"

abbrev pub cas_min_annotation : String
cas_min_annotation = "cluster.x-k8s.io/cluster-api-autoscaler-node-group-min-size"

-- One annotation of the autoscaler: it is set where it is missing or empty.
abbrev pub annotate : String → ℤ → StringMap → StringMap × Bool
annotate key bound annotations =
    if read annotations key == ""
    then (insert key (itoa bound) annotations, true)
    else (annotations, false)

unfoldable pub add_cluster_autoscaler_annotations : Option StringMap → ℤ → ℤ → StringMap × Bool
add_cluster_autoscaler_annotations annotations cas_max cas_min =
    let first = annotate cas_max_annotation cas_max (or_empty annotations) in
    let second = annotate cas_min_annotation cas_min first.0 in (second.0, first.1 || second.1)

-- `prepareCAPIManifestThenEncode` before the encoding: the new form, and whether it is modified.
abbrev pub without_namespace : Resource → Resource × Bool
without_namespace r =
    if not (r.namespace == "") then (record r { namespace = "" }, true) else (r, false)

unfoldable pub annotated : ℤ → ℤ → Resource → Resource × Bool
unfolding add_cluster_autoscaler_annotations
annotated cas_max cas_min r =
    let added = add_cluster_autoscaler_annotations r.annotations cas_max cas_min in
    if (r.kind == "MachineDeployment") && added.1
    then (record r { annotations = some added.0 }, true)
    else (r, false)

unfoldable pub prepare_resource : ℤ → ℤ → Resource → Resource × Bool
prepare_resource cas_max cas_min r =
    let bare = without_namespace r in
    let done = annotated cas_max cas_min bare.0 in (done.0, bare.1 || done.1)

-- The conversion and the encoder of the libraries; `encode` appends a document to a buffer.
pub record Yaml : Type 0 where
  pub convert : Resource → Result Resource
  pub encode : String → Resource → Result String

module _ (yaml : Yaml) where
  unfoldable pub prepare_then_encode : ℤ → ℤ → String → Resource → Result (String × Bool)
  unfolding prepare_resource
  prepare_then_encode cas_max cas_min buf r =
      wrap "failed to convert object: " (yaml.convert r) >>=ᵣ λ unstr.
      let done = prepare_resource cas_max cas_min unstr in
      wrap "failed to encode object: " (yaml.encode buf done.0) >>=ᵣ λ next. ok (next, done.1)

  -- The loop of `prepare`, with the name found so far, the buffer and `dirty`.
  unfoldable pub prepare_from :
      ℤ → ℤ → String → String → Bool → List Resource → Result (String × String × Bool)
  unfolding prepare_then_encode
  prepare_from cas_max cas_min found buf dirty [] = ok (found, buf, dirty)
  prepare_from cas_max cas_min found buf dirty (r ∷ rs) =
      let name = if r.kind == "Cluster" then r.name else found in
      if (r.kind == "Cluster") && not (found == "")
      then err err_multiple_clusters
      else wrap "failed to remove namespace or encode object: "
          (prepare_then_encode cas_max cas_min buf r)
        >>=ᵣ λ done. prepare_from cas_max cas_min name done.0 (dirty || done.1) rs

  -- The name of the cluster, and the new manifest if there is one.
  unfoldable pub prepare : Result (List Resource) → Bool → ℤ → ℤ → Result (String × Option String)
  unfolding prepare_from
  prepare infos validate_only cas_max cas_min = elim infos [
    | err e ↦ err ("builder failed to run: " <> e)
    | ok rs ↦ elim (prepare_from cas_max cas_min "" "" false rs) [
      | err e ↦ err e
      | ok (name, buf, dirty) ↦
          if name == ""
          then err "failed to find cluster resource"
          else ok (name, if not validate_only && dirty then some buf else none)
    ]
  ]
