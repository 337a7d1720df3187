-- ===== src/Clusters/Release.antt =====
-- An external cluster that Arlon manages and then releases.
use mathlib.Core.Path.{subst}
use arlon.Prelude.{
  String, ◌≡◌, refl, ◌∙◌, ap, sym, ap₂, inl, inr, Option, none, some, List, [], ◌∷◌, arith, any,
  Bool-cases, Option-cases, ◌==◌, ==-refl, string_eq, if◌then◌else◌,
}
use arlon.Go.Exec.{wrapped-eq-ok, Result, ok, Result-cases, ok_injective}
use arlon.Go.Map.{or_empty, StringMap, insert, erase, lookup, lookup-insert, lookup-erase, read}
use arlon.Profiles.{Profile}
use arlon.Clusters.{
  Cluster, cluster_type_label_key, argo_cluster_secret_type_label, find_secret, get, list,
}
use arlon.Clusters.External.{ClusterSecret, Api}
use arlon.Clusters.Managed.{
  profile_key, profile_app_key, profile_app_name, construct_profile_app, managed, released,
  unlabelled_secret, secret_to_manage, patch_or_undo, manage_external, secret_to_release,
  unmanage_external,
}

find_secret-cluster :
    (name : String) (ss : List ClusterSecret) (s : ClusterSecret)
    → find_secret name ss ≡ some s
    → s.cluster ≡ name
unfolding find_secret
find_secret-cluster name [] s h = absurd (ground arith)
find_secret-cluster name (x ∷ ss) s h = elim (Bool-cases (x.cluster == name)) [
  | inl e ↦
      let same : x ≡ s =
        ap (λ (o : Option ClusterSecret). elim o [ none ↦ x | some y ↦ y ])
          (rw (find_secret, e) at h) in
      ap (λ (y : ClusterSecret). y.cluster) (sym same) ∙ ground (arith, e)
  | inr e ↦ find_secret-cluster name ss s (rw (find_secret, e) at h)
]

-- The secret `after` is `before` without the label and the annotations of Arlon; all others are as
-- they were.
abbrev pub Restores : ClusterSecret → ClusterSecret → Type 0
Restores before after =
    (after.name ≡ before.name)
    × (after.cluster ≡ before.cluster)
    × ((key : String)
        → lookup key (or_empty after.labels)
          ≡ (if cluster_type_label_key == key then none else lookup key (or_empty before.labels)))
    × ((key : String)
        → lookup key (or_empty after.annotations) ≡ (
            if profile_app_key == key
            then none
            else if profile_key == key
            then none
            else lookup key (or_empty before.annotations)))

erase_inserted :
    (key k v : String) (m : StringMap)
    → lookup key (erase k (insert k v m)) ≡ (if k == key then none else lookup key m)
erase_inserted key k v m =
    ground (arith, lookup-erase key k (insert k v m), lookup-insert key k v m)

erase_both :
    (key j k u v : String) (m : StringMap)
    → lookup key (erase k (erase j (insert k v (insert j u m))))
      ≡ (if k == key then none else if j == key then none else lookup key m)
erase_both key j k u v m = ground (
  arith,
  lookup-erase key k (erase j (insert k v (insert j u m))),
  lookup-erase key j (insert k v (insert j u m)),
  lookup-insert key k v (insert j u m),
  lookup-insert key j u m,
)

abbrev Manages : String → ClusterSecret → ClusterSecret → Type 0
Manages app_name before after =
    (after.name ≡ before.name)
    × (after.cluster ≡ before.cluster)
    × (read (or_empty after.annotations) profile_app_key ≡ app_name)
    × Restores before (released after)

-- The managed secret: of the same name and cluster, with the app's name as an annotation.
managed_lem :
    (profile_name app_name : String) (before after : ClusterSecret)
    → managed profile_name app_name before ≡ ok after
    → Manages app_name before after
unfolding managed released
managed_lem profile_name app_name before after h = elim (Option-cases before.labels) [
  | inl e ↦ absurd (let k = rw (managed, e) at h in ground (arith, k))
  | inr (labels, e) ↦ elim (Option-cases before.annotations) [
    | inl f ↦ absurd (let k = rw (managed, e, f) at h in ground (arith, k))
    | inr (annotations, f) ↦
        subst (λ x. Manages app_name before x) (ok_injective (rw (managed, e, f) at h))
          (
            refl,
            refl,
            rw
                (
                  lookup-insert profile_app_key profile_app_key app_name
                      (insert profile_key profile_name annotations),
                  ==-refl {A = String} profile_app_key,
                )
                refl,
            (
              refl,
              refl,
              λ key. rw (e) (erase_inserted key cluster_type_label_key "external" labels),
              λ key.
                  rw (f)
                    (erase_both key profile_key profile_app_key profile_name app_name annotations),
            ),
          )
  ]
]

module _ (api : Api) (finalizer argocd_ns : String) where
  unlabelled_secret_found :
      (cluster_name : String) (w : api.World) (secrets : List ClusterSecret) (secr : ClusterSecret)
      → unlabelled_secret api finalizer argocd_ns cluster_name w secrets ≡ ok secr
      → find_secret cluster_name secrets ≡ some secr
  unfolding unlabelled_secret
  unlabelled_secret_found cluster_name w secrets secr h =
      elim (Option-cases (find_secret cluster_name secrets)) [
        | inl j ↦ absurd (let k = rw (unlabelled_secret, j) at h in ground (arith, k))
        | inr (s, j) ↦ elim (Bool-cases (read (or_empty s.labels) cluster_type_label_key == "")) [
          | inr l ↦ absurd (let k = rw (unlabelled_secret, j, l) at h in ground (arith, k))
          | inl l ↦ elim (Result-cases (api.runtime_client w)) [
            | inr (_, m) ↦
                absurd (let k = rw (unlabelled_secret, j, l, m) at h in ground (arith, k))
            | inl (_, m) ↦
                j ∙ ap (λ x. some x) (ok_injective (rw (unlabelled_secret, j, l, m) at h))
          ]
        ]
      ]

  secret_to_manage_found :
      (cluster_name : String) (prof : Profile) (w : api.World) (secr : ClusterSecret)
      → secret_to_manage api finalizer argocd_ns cluster_name prof w ≡ ok secr
      → (secrets : List ClusterSecret) × (api.list_secrets argo_cluster_secret_type_label w
          ≡ ok secrets)
        × (find_secret cluster_name secrets ≡ some secr)
  unfolding secret_to_manage
  secret_to_manage_found cluster_name prof w secr h = elim (Bool-cases (prof.repo_url == "")) [
    | inl a ↦ absurd (let k = rw (secret_to_manage, a) at h in ground (arith, k))
    | inr a ↦ elim (Result-cases (api.app_client w)) [
      | inr (_, b) ↦ absurd (let k = rw (secret_to_manage, a, b) at h in ground (arith, k))
      | inl (_, b) ↦ elim (Result-cases (list api w)) [
        | inr (_, c) ↦ absurd (let k = rw (secret_to_manage, a, b, c) at h in ground (arith, k))
        | inl (clusters, c) ↦
            elim (Bool-cases (any (λ (x : Cluster). x.name == cluster_name) clusters)) [
              | inl d ↦ absurd (let k = rw (secret_to_manage, a, b, c, d) at h in ground (arith, k))
              | inr d ↦ elim (Result-cases (api.cluster_client w)) [
                | inr (_, e) ↦
                    absurd (let k = rw (secret_to_manage, a, b, c, d, e) at h in ground (arith, k))
                | inl (_, e) ↦ elim (Result-cases (api.get_cluster cluster_name w)) [
                  | inr (_, f) ↦
                      absurd
                        (let k = rw (secret_to_manage, a, b, c, d, e, f) at h in ground (arith, k))
                  | inl (_, f) ↦ elim (Result-cases (api.kube_client w)) [
                    | inr (_, g) ↦ absurd (
                        let k = rw (secret_to_manage, a, b, c, d, e, f, g) at h in
                        ground (arith, k))
                    | inl (_, g) ↦
                        elim (Result-cases (api.list_secrets argo_cluster_secret_type_label w)) [
                          | inr (_, i) ↦ absurd (
                              let k = rw (secret_to_manage, a, b, c, d, e, f, g, i) at h in
                              ground (arith, k))
                          | inl (secrets, i) ↦ (
                            secrets,
                            i,
                            unlabelled_secret_found cluster_name w secrets secr
                                (rw (secret_to_manage, a, b, c, d, e, f, g, i) at h),
                          )
                        ]
                  ]
                ]
              ]
            ]
      ]
    ]
  ]

  -- The secret that is read for a cluster, and the app's name in it.
  abbrev Releases : String → api.World → ClusterSecret × String → Type 0
  Releases cluster_name w found =
      (name : String) × (api.get_secret name w ≡ ok found.0)
      × (found.0.cluster ≡ cluster_name)
      × (found.1 ≡ read (or_empty found.0.annotations) profile_app_key)

  secret_to_release_found :
      (cluster_name : String) (w : api.World) (found : ClusterSecret × String)
      → secret_to_release api finalizer argocd_ns cluster_name w ≡ ok found
      → Releases cluster_name w found
  unfolding secret_to_release
  secret_to_release_found cluster_name w found h = elim (Result-cases (api.app_client w)) [
    | inr (_, a) ↦ absurd (let k = rw (secret_to_release, a) at h in ground (arith, k))
    | inl (_, a) ↦ elim (Result-cases (get api cluster_name w)) [
      | inr (_, b) ↦ absurd (let k = rw (secret_to_release, a, b) at h in ground (arith, k))
      | inl (cluster, b) ↦ elim (Bool-cases (cluster.is_external)) [
        | inr c ↦ absurd (let k = rw (secret_to_release, a, b, c) at h in ground (arith, k))
        | inl c ↦ elim (Bool-cases (cluster.secret_name == "")) [
          | inl d ↦ absurd (let k = rw (secret_to_release, a, b, c, d) at h in ground (arith, k))
          | inr d ↦ elim (Result-cases (api.kube_client w)) [
            | inr (_, e) ↦
                absurd (let k = rw (secret_to_release, a, b, c, d, e) at h in ground (arith, k))
            | inl (_, e) ↦ elim (Result-cases (api.get_secret cluster.secret_name w)) [
              | inr (_, f) ↦
                  absurd
                    (let k = rw (secret_to_release, a, b, c, d, e, f) at h in ground (arith, k))
              | inl (s, f) ↦ elim (Bool-cases (s.cluster == cluster_name)) [
                | inr g ↦
                    absurd (
                      let k = rw (secret_to_release, a, b, c, d, e, f, g) at h in ground (arith, k))
                | inl g ↦
                    elim (Bool-cases
                      (read (or_empty s.labels) cluster_type_label_key == "external")) [
                        | inr i ↦ absurd (
                            let k = rw (secret_to_release, a, b, c, d, e, f, g, i) at h in
                            ground (arith, k))
                        | inl i ↦ elim (Result-cases (api.runtime_client w)) [
                          | inr (_, j) ↦ absurd (
                              let k = rw (secret_to_release, a, b, c, d, e, f, g, i, j) at h in
                              ground (arith, k))
                          | inl (_, j) ↦
                              elim (Bool-cases
                                (read (or_empty s.annotations) profile_app_key == "")) [
                                  | inl l ↦ absurd (
                                      let k =
                                        rw (secret_to_release, a, b, c, d, e, f, g, i, j, l) at h in
                                      ground (arith, k))
                                  | inr l ↦
                                      let k = ok_injective (
                                        rw (secret_to_release, a, b, c, d, e, f, g, i, j, l) at
                                          h) in
                                      subst
                                        (λ (x : ClusterSecret × String). Releases cluster_name w x)
                                        k (cluster.secret_name, f, ground (arith, g), refl)
                                ]
                        ]
                      ]
              ]
            ]
          ]
        ]
      ]
    ]
  ]

  -- What is relied on of Kubernetes: a secret that was patched is read, under its
  -- name, as it was given.
  pub record IsLawful : Type 0 where
    pub patched :
        (secr : ClusterSecret) (w w' : api.World)
        → api.patch_secret secr w ≡ (ok tt, w')
        → api.get_secret secr.name w' ≡ ok secr

  -- The secrets of the cluster have one name.
  abbrev pub HasOneSecret : String → api.World → Type 0
  HasOneSecret cluster_name w =
      (m n : String) (s t : ClusterSecret)
      → api.get_secret m w ≡ ok s
      → api.get_secret n w ≡ ok t
      → s.cluster ≡ cluster_name
      → t.cluster ≡ cluster_name
      → m ≡ n

  manage_external_parts :
      (cluster_name : String) (prof : Profile) (w w' : api.World)
      → manage_external api finalizer argocd_ns cluster_name prof w ≡ (ok tt, w')
      → (before after : ClusterSecret) × ((v : api.World) × (secret_to_manage api finalizer
              argocd_ns cluster_name prof w
            ≡ ok before)
          × (managed prof.name (profile_app_name cluster_name prof) before ≡ ok after)
          × (api.create_app
                (construct_profile_app finalizer
                  (profile_app_name cluster_name prof)
                  argocd_ns
                  cluster_name
                  prof)
                w
              ≡ (ok tt, v))
          × (api.patch_secret after v ≡ (ok tt, w')))
  unfolding manage_external patch_or_undo
  manage_external_parts cluster_name prof w w' h =
      let app_name = profile_app_name cluster_name prof in
      let call =
        api.create_app (construct_profile_app finalizer app_name argocd_ns cluster_name prof) w in
      elim (Result-cases (secret_to_manage api finalizer argocd_ns cluster_name prof w)) [
        | inr (_, a) ↦ absurd (let k = rw (manage_external, a) at h in ground (arith, k))
        | inl (before, a) ↦ elim (Result-cases call.0) [
          | inr (_, b) ↦ absurd (let k = rw (manage_external, a, b) at h in ground (arith, k))
          | inl (_, b) ↦ elim (Result-cases (managed prof.name app_name before)) [
            | inr (_, c) ↦ absurd (let k = rw (manage_external, a, b, c) at h in ground (arith, k))
            | inl (after, c) ↦ elim (Result-cases (api.patch_secret after call.1).0) [
              | inr (_, d) ↦
                  elim (Result-cases
                    (api.delete_app app_name (api.patch_secret after call.1).1).0) [
                      | inr (_, x) ↦ absurd (
                          let k = rw (manage_external, a, b, c, patch_or_undo, d, x) at h in
                          ground (arith, k))
                      | inl (_, x) ↦ absurd (
                          let k = rw (manage_external, a, b, c, patch_or_undo, d, x) at h in
                          ground (arith, k))
                    ]
              | inl (_, d) ↦
                  let k = rw (manage_external, a, b, c, patch_or_undo, d) at h in
                  (
                    before,
                    after,
                    (
                      call.1,
                      a,
                      c,
                      ap (λ r. (r, call.1)) b,
                      ap₂ (λ r v. (r, v)) d (ap (λ (r : Result (Unit {0}) × api.World). r.1) k),
                    ),
                  )
            ]
          ]
        ]
      ]

  unmanage_external_parts :
      (cluster_name : String) (w w' : api.World)
      → unmanage_external api finalizer argocd_ns cluster_name w ≡ (ok tt, w')
      → (secr : ClusterSecret) × ((app_name : String) × ((v : api.World) × (secret_to_release api
                finalizer argocd_ns cluster_name w
              ≡ ok (secr, app_name))
            × (api.delete_app app_name w ≡ (ok tt, v))
            × (api.patch_secret (released secr) v ≡ (ok tt, w'))))
  unfolding unmanage_external
  unmanage_external_parts cluster_name w w' h =
      elim (Result-cases (secret_to_release api finalizer argocd_ns cluster_name w)) [
        | inr (_, a) ↦ absurd (let k = rw (unmanage_external, a) at h in ground (arith, k))
        | inl ((secr, app_name), a) ↦ elim (Result-cases (api.delete_app app_name w).0) [
          | inr (_, b) ↦ absurd (let k = rw (unmanage_external, a, b) at h in ground (arith, k))
          | inl (_, b) ↦ (
            secr,
            (
              app_name,
              (
                (api.delete_app app_name w).1,
                a,
                ap (λ r. (r, (api.delete_app app_name w).1)) b,
                wrapped-eq-ok "failed to patch secret: " (api.patch_secret (released secr))
                    (api.delete_app app_name w).1 (rw (unmanage_external, a, b) at h),
              ),
            ),
          )
        ]
      ]

  -- A cluster that was managed and is then released, both without an error: its secret, the first
  -- that is listed for the cluster at the start, is in the end as it was, without the label and the
  -- annotations of Arlon, and the application that was created for the profile is the one whose
  -- name was deleted. A patched secret is read as it was given, and between the two calls the
  -- secrets of the cluster have one name.
  pub manage_external-unmanage_external :
      IsLawful
      → (cluster_name : String) (prof : Profile) (w v w' : api.World) → HasOneSecret cluster_name v
      → manage_external api finalizer argocd_ns cluster_name prof w ≡ (ok tt, v)
      → unmanage_external api finalizer argocd_ns cluster_name v ≡ (ok tt, w')
      → (before after : ClusterSecret) × ((secrets : List ClusterSecret) × ((u x : api.World)
            × (api.list_secrets argo_cluster_secret_type_label w ≡ ok secrets)
            × (find_secret cluster_name secrets ≡ some before)
            × (api.get_secret before.name w' ≡ ok after)
            × Restores before after
            × (api.create_app
                  (construct_profile_app finalizer
                    (profile_app_name cluster_name prof)
                    argocd_ns
                    cluster_name
                    prof)
                  w
                ≡ (ok tt, u))
            × (api.delete_app (profile_app_name cluster_name prof) v ≡ (ok tt, x))))
  manage_external-unmanage_external lawful cluster_name prof w v w' one managing releasing =
      let (before, kept, (u, chosen, marked, created, patched)) =
        manage_external_parts cluster_name prof w v managing in
      let (secrets, listed, first) = secret_to_manage_found cluster_name prof w before chosen in
      let (named, of_cluster, noted, restores) =
        managed_lem prof.name (profile_app_name cluster_name prof) before kept marked in
      let stored = lawful.patched kept u v patched in
      let (secr, (app_name, (x, read_, deleted, released_))) =
        unmanage_external_parts cluster_name v w' releasing in
      let (name, got, its_cluster, its_app) =
        secret_to_release_found cluster_name v (secr, app_name) read_ in
      let same_name : name ≡ kept.name =
        one name kept.name secr kept got stored its_cluster
          (of_cluster ∙ find_secret-cluster cluster_name secrets before first) in
      let same : kept ≡ secr =
        ok_injective (sym stored ∙ (ap (λ n. api.get_secret n v) (sym same_name) ∙ got)) in
      let app_same : app_name ≡ profile_app_name cluster_name prof =
        its_app
        ∙ (ap (λ (s : ClusterSecret). read (or_empty s.annotations) profile_app_key) (sym same)
            ∙ noted) in
      let restored : Restores before (released secr) =
        subst (λ s. Restores before (released s)) same restores in
      (
        before,
        released secr,
        (
          secrets,
          (
            u,
            x,
            listed,
            first,
            ap (λ n. api.get_secret n w') (sym restored.0)
                ∙ lawful.patched (released secr) x w' released_,
            restored,
            created,
            ap (λ n. api.delete_app n v) (sym app_same) ∙ deleted,
          ),
        ),
      )
