-- ===== src/BaseCluster/Resources.antt =====
-- What a prepared resource holds.
use arlon.Prelude.{
  String, ◌≡◌, refl, ◌∙◌, inl, inr, Bool, true, false, ◌&&◌, Option, some, arith, ◌==◌, ==-refl,
  string_eq, if◌then◌else◌, Bool-cases,
}
use arlon.Go.Map.{StringMap, or_empty, insert, read, lookup-insert}
use arlon.Go.Strconv.{ℤ, itoa}
use arlon.Go.Strconv.RoundTrip.{itoa-filled}
use arlon.BaseCluster.{
  Resource, without_namespace, cas_max_annotation, cas_min_annotation, annotate,
  add_cluster_autoscaler_annotations, annotated, prepare_resource,
}

-- Each annotation that the autoscaler wants has a value.
abbrev HasBounds : StringMap → Type 0
HasBounds m =
    ((read m cas_max_annotation == "") ≡ false) × ((read m cas_min_annotation == "") ≡ false)

read-insert :
    (j k v : String) (m : StringMap) → read (insert k v m) j ≡ (if k == j then v else read m j)
read-insert j k v m = ground (arith, lookup-insert j k v m)

annotate-filled :
    (key : String) (z : ℤ) (m : StringMap) → (read (annotate key z m).0 key == "") ≡ false
annotate-filled key z m = elim (Bool-cases (read m key == "")) [
  | inr e ↦ rw (e) e
  | inl e ↦ rw (e, read-insert key key (itoa z) m, ==-refl key) (itoa-filled z)
]

annotate-keeps :
    (key other : String) (z : ℤ) (m : StringMap)
    → (read m other == "") ≡ false
    → (read (annotate key z m).0 other == "") ≡ false
annotate-keeps key other z m h = elim (Bool-cases (read m key == "")) [
  | inr e ↦ rw (e) h
  | inl e ↦ elim (Bool-cases (key == other)) [
    | inl k ↦ rw (e, read-insert other key (itoa z) m, k) (itoa-filled z)
    | inr k ↦ rw (e, read-insert other key (itoa z) m, k) h
  ]
]

annotations-HasBounds :
    (o : Option StringMap) (most least : ℤ)
    → HasBounds (add_cluster_autoscaler_annotations o most least).0
unfolding add_cluster_autoscaler_annotations
annotations-HasBounds o most least = (
  annotate-keeps cas_min_annotation cas_max_annotation least _
      (annotate-filled cas_max_annotation most (or_empty o)),
  annotate-filled cas_min_annotation least _,
)

HasBounds-clean :
    (m : StringMap) (most least : ℤ)
    → HasBounds m
    → add_cluster_autoscaler_annotations (some m) most least ≡ (m, false)
unfolding add_cluster_autoscaler_annotations
HasBounds-clean m most least (upper, lower) = rw (upper, lower) refl

without_namespace-kind : (r : Resource) → (without_namespace r).0.kind ≡ r.kind
without_namespace-kind r = ground arith

without_namespace-name : (r : Resource) → (without_namespace r).0.name ≡ r.name
without_namespace-name r = ground arith

without_namespace-namespace : (r : Resource) → ((without_namespace r).0.namespace == "") ≡ true
without_namespace-namespace r = elim (Bool-cases (r.namespace == "")) [
  | inl e ↦ rw (e) e
  | inr e ↦ rw (e) (==-refl {A = String} "")
]

without_namespace_same :
    (r : Resource) → (r.namespace == "") ≡ true → without_namespace r ≡ (r, false)
without_namespace_same r h = rw (h) refl

module _ (most least : ℤ) where
  abbrev pub Clean : (Resource → Resource × Bool) → Resource → Type 0
  Clean f r = f r ≡ (r, false)

  annotated_same :
      (r : Resource)
      → ((r.kind == "MachineDeployment")
          && (add_cluster_autoscaler_annotations r.annotations most least).1)
        ≡ false
      → Clean (annotated most least) r
  unfolding annotated
  annotated_same r h = rw (annotated, h) refl

  annotated_changed :
      (r : Resource)
      → ((r.kind == "MachineDeployment")
          && (add_cluster_autoscaler_annotations r.annotations most least).1)
        ≡ true
      → annotated most least r ≡ (
        record r {
          annotations = some (add_cluster_autoscaler_annotations r.annotations most least).0;
        },
        true,
      )
  unfolding annotated
  annotated_changed r h = rw (annotated, h) refl

  annotated-annotated : (r : Resource) → Clean (annotated most least) (annotated most least r).0
  annotated-annotated r =
      elim (Bool-cases (
        (r.kind == "MachineDeployment")
        && (add_cluster_autoscaler_annotations r.annotations most least).1)) [
          | inr c ↦ rw (annotated_same r c) (annotated_same r c)
          | inl c ↦ rw (annotated_changed r c) (
              annotated_same _ (
                rw (HasBounds-clean _ most least (annotations-HasBounds r.annotations most least))
                  (ground arith)))
        ]

  annotated-namespace : (r : Resource) → (annotated most least r).0.namespace ≡ r.namespace
  unfolding annotated
  annotated-namespace r = ground arith

  annotated-kind : (r : Resource) → (annotated most least r).0.kind ≡ r.kind
  unfolding annotated
  annotated-kind r = ground arith

  annotated-name : (r : Resource) → (annotated most least r).0.name ≡ r.name
  unfolding annotated
  annotated-name r = ground arith

  -- A prepared resource has no namespace, and keeps its kind and its name.
  pub prepare_resource-namespace :
      (r : Resource) → ((prepare_resource most least r).0.namespace == "") ≡ true
  unfolding prepare_resource
  prepare_resource-namespace r =
      rw (annotated-namespace (without_namespace r).0) (without_namespace-namespace r)

  pub prepare_resource-kind : (r : Resource) → (prepare_resource most least r).0.kind ≡ r.kind
  unfolding prepare_resource
  prepare_resource-kind r = annotated-kind (without_namespace r).0 ∙ without_namespace-kind r

  pub prepare_resource-name : (r : Resource) → (prepare_resource most least r).0.name ≡ r.name
  unfolding prepare_resource
  prepare_resource-name r = annotated-name (without_namespace r).0 ∙ without_namespace-name r

  pub prepare_twice :
      (r : Resource) → Clean (prepare_resource most least) (prepare_resource most least r).0
  unfolding prepare_resource
  prepare_twice r =
      let bare =
        without_namespace_same (annotated most least (without_namespace r).0).0
          (prepare_resource-namespace r) in
      rw (prepare_resource, bare, annotated-annotated (without_namespace r).0) refl

  -- A resource that is not modified is left as it is.
  pub prepare_resource_same :
      (r : Resource)
      → (prepare_resource most least r).1 ≡ false
      → (prepare_resource most least r).0 ≡ r
  unfolding prepare_resource
  prepare_resource_same r h = elim (Bool-cases (r.namespace == "")) [
    | inr e ↦ absurd (let k = rw (prepare_resource, e) at h in ground (arith, k))
    | inl e ↦
        elim (Bool-cases (
          (r.kind == "MachineDeployment")
          && (add_cluster_autoscaler_annotations r.annotations most least).1)) [
            | inr c ↦ rw (prepare_resource, e, annotated_same r c) refl
            | inl c ↦
                absurd (
                  let k = rw (prepare_resource, e, annotated_changed r c) at h in ground (arith, k))
          ]
  ]
