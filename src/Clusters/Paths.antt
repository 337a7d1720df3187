-- ===== src/Clusters/Paths.antt =====
-- pkg/cluster/util.go: where the files of a cluster stand in a repository.
use arlon.Prelude.{
  String, ◌<>◌, ◌≡◌, refl, ap, not, Option, none, some, List, [], ◌∷◌, ◌++◌, ◌==◌, ==-refl,
  string_eq, if◌then◌else◌,
}
use arlon.Go.Exec.{Result, ok, err}
use arlon.Go.Path.{slash, join, join_parts}
use arlon.Go.Strings.{split}
use arlon.Go.Path.Plain.{IsPlain, ArePlain, split-join_parts, join-join_parts}

abbrev pub cluster_path_from_base_path : String → String → String
cluster_path_from_base_path base_path cluster_name = join base_path cluster_name

abbrev pub mgmt_path_from_cluster_path : String → String
mgmt_path_from_cluster_path cluster_path = join cluster_path "mgmt"

abbrev pub workload_path_from_cluster_path : String → String
workload_path_from_cluster_path cluster_path = join cluster_path "workload"

abbrev pub mgmt_path_from_base_path : String → String → String
mgmt_path_from_base_path base_path cluster_name =
    join (cluster_path_from_base_path base_path cluster_name) "mgmt"

-- The last two of three or more components, behind those before them.
unfoldable pub last_two : List String → Option (List String × (String × String))
last_two [] = none
last_two (a ∷ []) = none
last_two (a ∷ b ∷ []) = none
last_two (a ∷ b ∷ c ∷ []) = some (a ∷ [], (b, c))
last_two (a ∷ b ∷ c ∷ d ∷ rest) = elim (last_two (b ∷ c ∷ d ∷ rest)) [
  | none ↦ none
  | some (front, ends) ↦ some (a ∷ front, ends)
]

unfoldable pub decompose_path : String → Result (String × String)
unfolding last_two
decompose_path mgmt_path = elim (last_two (split slash mgmt_path)) [
  | none ↦ err "malformed repo path"
  | some (base, (cluster_name, last)) ↦
      if not (last == "mgmt")
      then err ("malformed repo path: unexpected last component (" <> (last <> ")"))
      else ok (join_parts base, cluster_name)
]

last_two-append :
    (a : String) (base : List String) (name last : String)
    → last_two ((a ∷ base) ++ name ∷ last ∷ []) ≡ some (a ∷ base, (name, last))
unfolding last_two
last_two-append a [] name last = refl
last_two-append a (b ∷ []) name last = refl
last_two-append a (b ∷ c ∷ []) name last = refl
last_two-append a (b ∷ c ∷ d ∷ base) name last =
    rw (last_two, last_two-append b (c ∷ d ∷ base) name last) refl

append_twice : (ps : List String) (a b : String) → (ps ++ a ∷ []) ++ b ∷ [] ≡ ps ++ a ∷ b ∷ []
append_twice [] a b = refl
append_twice (p ∷ ps) a b = ap (λ x. p ∷ x) (append_twice ps a b)

mgmt-IsPlain : IsPlain "mgmt"
unfolding string_eq
mgmt-IsPlain = (refl, refl, refl, refl)

-- The path of a cluster's management files, which the program makes of a base path and the cluster's
-- name, gives back the base path and the name. The base path has one component at least, and its
-- components and the name are not empty, have no slash and are neither `.` nor `..`.
pub decompose_path-mgmt_path_from_base_path :
    (a : String) (base : List String) (name : String)
    → ArePlain (a ∷ base)
    → IsPlain name
    → decompose_path (mgmt_path_from_base_path (join_parts (a ∷ base)) name)
      ≡ ok (join_parts (a ∷ base), name)
unfolding decompose_path
decompose_path-mgmt_path_from_base_path a base name parts plain =
    let (cluster_path, more) = join-join_parts a base name parts plain in
    let (path, all) = join-join_parts a (base ++ name ∷ []) "mgmt" more mgmt-IsPlain in
    rw
      (
        cluster_path,
        path,
        append_twice base name "mgmt",
        decompose_path,
        split-join_parts a (base ++ name ∷ "mgmt" ∷ []) (rw (append_twice base name "mgmt") at all),
        last_two-append a base name "mgmt",
        ==-refl {A = String} "mgmt",
      )
      refl
