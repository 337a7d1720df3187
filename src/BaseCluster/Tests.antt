-- ===== src/BaseCluster/Tests.antt =====
-- A manifest of a cluster and a machine deployment, with an encoder that lists kinds.
use arlon.Prelude.{
  String, ◌≡◌, any, ◌↔◌, refl, Bool, true, false, none, some, List, [], ◌∷◌, arith, ◌==◌, string_eq,
  ◌&&◌, not, if◌then◌else◌, Bool-cases, inl, inr, sym, ◌∙◌, ap,
}
use arlon.Go.Exec.{Result, ok, err, ok_injective, Result-cases, ◌>>=ᵣ◌}
use arlon.Go.Map.{insert, lookup}
use arlon.Go.Strconv.{pos, itoa, format_uint, digit}
use arlon.BaseCluster.{
  Resource, Yaml, validate, add_cluster_autoscaler_annotations, annotated, prepare_resource,
  prepare_then_encode, prepare_from, prepare,
}
use arlon.BaseCluster.Laws.{HaveNames, HaveNoNamespace, clusters, validate_iff}
use arlon.BaseCluster.Manifest.{encode_all}
use arlon.Git.{FileInfo}
use arlon.BaseCluster.Data.{kustomization_yaml}
use arlon.BaseCluster.Dir.{look_at, scan_dir, validate_dir}
use arlon.BaseCluster.DirLaws.{AreFiles, HaveFileNames, manifests, validate_dir-manifests}
use arlon.BaseCluster.Accepted.{reread, Reads, prepare-validate, prepare-prepare}

abbrev cluster : Resource
cluster = record { kind = "Cluster"; name = "c1"; namespace = ""; annotations = none; body = "" }

abbrev machines : Resource
machines = record {
  kind = "MachineDeployment";
  name = "md";
  namespace = "";
  annotations = none;
  body = "";
}

abbrev manifest : List Resource
manifest = cluster ∷ machines ∷ []

named : HaveNames manifest
unfolding string_eq
named = (refl, (refl, tt))

validate_iff_example :
    (validate (ok manifest) ≡ ok "c1")
    ↔ (HaveNoNamespace manifest × (clusters manifest ≡ "c1" ∷ []))
validate_iff_example = validate_iff manifest "c1" named

namespaced_rejected :
    validate (ok (record cluster { namespace = "ns" } ∷ []))
    ≡ err "resource has a namespace defined: resource: c1, kind: Cluster"
unfolding validate string_eq
namespaced_rejected = refl

-- A bare cluster, encoded as its name: the one document that the encoder takes.
abbrev bare_cluster : String → Resource
bare_cluster name = record {
  kind = "Cluster";
  name = name;
  namespace = "";
  annotations = none;
  body = "";
}

abbrev no_annotations : Resource → Bool
no_annotations r = elim r.annotations [ none ↦ true | some _ ↦ false ]

abbrev encodable : String → Resource → Bool
encodable buf r =
    (buf == "")
    && ((r.kind == "Cluster")
        && (not (r.name == "") && ((r.namespace == "") && ((r.body == "") && no_annotations r))))

abbrev yaml : Yaml
yaml = record {
  convert = λ r. ok r;
  encode = λ buf r. if encodable buf r then ok r.name else err "cannot encode";
}

abbrev parse : String → Result (List Resource)
parse text = ok (bare_cluster text ∷ [])

encodable_lem :
    (r : Resource) → encodable "" r ≡ true → (bare_cluster r.name ≡ r) × ((r.name == "") ≡ false)
encodable_lem r h = ground (arith, h)

encode-encodable :
    (buf : String) (r : Resource) (next : String)
    → yaml.encode buf r ≡ ok next
    → (encodable buf r ≡ true) × (r.name ≡ next)
encode-encodable buf r next h = elim (Bool-cases (encodable buf r)) [
  | inr e ↦ absurd (let k = rw (e) at h in ground (arith, k))
  | inl e ↦ let k = rw (e) at h in (e, ok_injective k)
]

full : (buf : String) (r : Resource) → (buf == "") ≡ false → yaml.encode buf r ≡ err "cannot encode"
full buf r h = rw (h) refl

bind-ok : (m : Result String) → (m >>=ᵣ λ x. ok x) ≡ m
bind-ok (ok a) = refl
bind-ok (err e) = refl

read_back : Reads parse yaml
unfolding encode_all
read_back r [] text h =
    let (e, named) = encode-encodable "" r text (sym (bind-ok (yaml.encode "" r)) ∙ h) in
    let (same, _) = encodable_lem r e in
    ap (λ c. ok (c ∷ [])) (sym (ap (λ n. bare_cluster n) named) ∙ same)
read_back r (q ∷ rs) text h = elim (Result-cases (yaml.encode "" r)) [
  | inr (_, e) ↦ absurd (let k = rw (encode_all, e) at h in ground (arith, k))
  | inl (next, e) ↦
      let (taken, same) = encode-encodable "" r next e in
      let (_, filled) = encodable_lem r taken in
      absurd
        (let k = rw (encode_all, e, full next q (rw (same) at filled)) at h in ground (arith, k))
]

abbrev named_space : List Resource
named_space = record (bare_cluster "c1") { namespace = "ns" } ∷ []

prepared_it : prepare yaml (ok named_space) false (pos 5) (pos 1) ≡ ok ("c1", some "c1")
unfolding prepare prepare_from prepare_then_encode prepare_resource annotated string_eq
prepared_it = refl

prepare-validate_example : validate (reread parse named_space (some "c1")) ≡ ok "c1"
prepare-validate_example =
    prepare-validate yaml parse (λ r. refl) read_back (pos 5) (pos 1) named_space "c1" (some "c1")
      prepared_it

prepare-prepare_example :
    prepare yaml (reread parse named_space (some "c1")) false (pos 5) (pos 1) ≡ ok ("c1", none)
prepare-prepare_example =
    prepare-prepare yaml parse (λ r. refl) read_back (pos 5) (pos 1) named_space "c1" (some "c1")
      prepared_it

bounds_added : add_cluster_autoscaler_annotations none (pos 5) (pos 12) ≡ (
  ("cluster.x-k8s.io/cluster-api-autoscaler-node-group-max-size", "5")
      ∷ ("cluster.x-k8s.io/cluster-api-autoscaler-node-group-min-size", "12")
      ∷ [],
  true,
)
unfolding add_cluster_autoscaler_annotations insert lookup string_eq itoa format_uint digit
bounds_added = refl

abbrev entry : String → FileInfo
entry name = record { name = name; is_dir = false }

abbrev entries : List FileInfo
entries = entry "configurations.yaml" ∷ entry "cluster.yaml" ∷ entry "kustomization.yaml" ∷ []

valid_dir : validate_dir (λ path. ok manifest) "/tmp/a" entries ≡ ok "c1"
unfolding validate_dir scan_dir look_at validate string_eq
valid_dir = refl

entries-HaveFileNames : HaveFileNames entries
unfolding string_eq
entries-HaveFileNames = (refl, (refl, (refl, tt)))

validate_dir-manifests_example :
    AreFiles entries
    × (any (λ info. info.name == "kustomization.yaml") entries ≡ true)
    × (any (λ info. info.name == "configurations.yaml") entries ≡ true)
    × ((file : String) × (manifests entries ≡ file ∷ []) × (validate (ok manifest) ≡ ok "c1"))
validate_dir-manifests_example =
    validate_dir-manifests (λ path. ok manifest) "/tmp/a" entries "c1" entries-HaveFileNames
      valid_dir

one_line :
    kustomization_yaml "m.yaml" ≡ "resources:\n- m.yaml\n\nconfigurations:\n- configurations.yaml\n"
unfolding kustomization_yaml
one_line = refl
