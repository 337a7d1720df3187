-- ===== src/Clusters/Updates.antt =====
-- What an update of a cluster preserves.
use mathlib.Core.Path.{subst}
use arlon.Prelude.{
  String, ◌<>◌, ◌≡◌, ◌∙◌, ap, ap₂, inl, inr, Bool, true, false, not, ◌||◌, arith, ◌==◌, string_eq,
  if◌then◌else◌, Bool-cases, Option-cases, List, [], none, some,
}
use arlon.Go.Exec.{Result, ok, err, Result-cases, ok_injective, wrap, ◌>>=ᵣ◌}
use arlon.Argo.{Application, HelmParameter}
use arlon.ClusterApps.Laws.{has_param}
use arlon.ClusterSpec.{ConfigMap, subchart_name}
use arlon.Profiles.{Profile}
use arlon.Clusters.External.{Answer, found, failed, Api}
use arlon.Clusters.Paths.{decompose_path}
use arlon.Clusters.Changes.{
  same_subchart, or_annotation, existing, new_root, root_to_update, write_update, update,
}

-- The parameters of a root application: none where it has no Helm part.
abbrev helm_params : Application → List HelmParameter
helm_params app = elim app.source.helm [ none ↦ [] | some params ↦ params ]

same_subchart_lem :
    (old : Application) (name : String)
    → same_subchart old name ≡ ok tt
    → has_param ("tags." <> name) "true" (helm_params old) ≡ true
unfolding same_subchart
same_subchart_lem old name h = elim (Option-cases old.source.helm) [
  | inl e ↦ absurd (let k = rw (same_subchart, e) at h in ground (arith, k))
  | inr (params, e) ↦ elim (Bool-cases (has_param ("tags." <> name) "true" params)) [
    | inl f ↦ rw (e) f
    | inr f ↦ absurd (let k = rw (same_subchart, e, f) at h in ground (arith, k))
  ]
]

-- What the new root application shares with the old one: the place in git, under the name of the
-- cluster, and the cluster type of the specification, which the old one has.
abbrev pub Preserves :
    (cluster_name base_path : String) → ConfigMap → Application → Application → Type 0
Preserves cluster_name base_path cm old root =
    (root.source.repo_url ≡ old.source.repo_url)
    × (root.source.path ≡ old.source.path)
    × (decompose_path old.source.path ≡ ok (base_path, cluster_name))
    × ((chart : String) × (subchart_name cm ≡ ok chart)
        × (has_param ("tags." <> chart) "true" (helm_params old) ≡ true))

-- The last checks on a constructed root application.
abbrev checked :
    (cluster_name name base : String)
    → Application
    → Result Application
    → Result (Application × String)
checked cluster_name name base old r =
    if not (name == cluster_name)
    then err ("unexpected cluster name extracted from repo path: " <> name)
    else wrap "failed to construct root app: " r >>=ᵣ λ root.
        if not (old.source.repo_url == root.source.repo_url)
          || not (old.source.path == root.source.path)
        then err "git repo reference cannot change"
        else ok (root, base)

unmoved :
    (old root : Application)
    → (not (old.source.repo_url == root.source.repo_url)
        || not (old.source.path == root.source.path))
      ≡ false
    → (root.source.repo_url ≡ old.source.repo_url) × (root.source.path ≡ old.source.path)
unmoved old root h = ground (arith, h)

checked_lem :
    (cluster_name name b base : String) (old root : Application) (r : Result Application)
    → checked cluster_name name b old r ≡ ok (root, base)
    → (name ≡ cluster_name)
      × (b ≡ base)
      × ((root.source.repo_url ≡ old.source.repo_url) × (root.source.path ≡ old.source.path))
checked_lem cluster_name name b base old root r h = elim (Bool-cases (name == cluster_name)) [
  | inr e ↦ absurd (let k = rw (e) at h in ground (arith, k))
  | inl e ↦ elim (Result-cases r) [
    | inr (_, f) ↦ absurd (let k = rw (e, f) at h in ground (arith, k))
    | inl (made, f) ↦
        elim (Bool-cases (
          not (old.source.repo_url == made.source.repo_url)
          || not (old.source.path == made.source.path))) [
            | inl g ↦ absurd (let k = rw (e, f, g) at h in ground (arith, k))
            | inr g ↦
                let k = ok_injective (rw (e, f, g) at h) in
                let same : made ≡ root = ap (λ (p : Application × String). p.0) k in
                (
                  ground (arith, e),
                  ap (λ (p : Application × String). p.1) k,
                  subst
                      (λ (a : Application).
                        (a.source.repo_url ≡ old.source.repo_url)
                        × (a.source.path ≡ old.source.path))
                      same (unmoved old made g),
                )
          ]
  ]
]

module _ (api : Api) (finalizer argocd_ns : String) where
  new_root-Preserves :
      (cluster_name spec_name mgmt_url : String) (old : Application) (prof : Profile)
      (cm : ConfigMap) (root : Application) (base : String)
      → new_root api finalizer argocd_ns cluster_name spec_name mgmt_url old prof cm
        ≡ ok (root, base)
      → Preserves cluster_name base cm old root
  unfolding new_root
  new_root-Preserves cluster_name spec_name mgmt_url old prof cm root base h =
      elim (Result-cases (subchart_name cm)) [
        | inr (_, e) ↦ absurd (let k = rw (new_root, e) at h in ground (arith, k))
        | inl (chart, e) ↦ elim (Result-cases (same_subchart old chart)) [
          | inr (_, f) ↦ absurd (let k = rw (new_root, e, f) at h in ground (arith, k))
          | inl (tt, f) ↦ elim (Result-cases (decompose_path old.source.path)) [
            | inr (_, g) ↦ absurd (let k = rw (new_root, e, f, g) at h in ground (arith, k))
            | inl ((b, name), g) ↦
                let k = rw (new_root, e, f, g) at h in
                let (named, based, (repo, path)) =
                  checked_lem cluster_name name b base old root _ k in
                (
                  repo,
                  path,
                  g ∙ ap (λ (p : String × String). ok p) (ap₂ (λ x y. (x, y)) based named),
                  (chart, e, same_subchart_lem old chart f),
                )
          ]
        ]
      ]

  root_to_update-Preserves :
      (cluster_name spec_name profile_name mgmt_url : String) (w : api.World)
      (old root : Application) (prof : Profile) (base : String)
      → root_to_update api finalizer argocd_ns cluster_name spec_name profile_name mgmt_url w old
        ≡ ok (root, (prof, base))
      → (spec : String) × ((cm : ConfigMap) × (or_annotation old "arlon.io/clusterspec"
              "clusterspec" spec_name
            ≡ ok spec)
          × (api.get_config_map spec w ≡ ok cm)
          × Preserves cluster_name base cm old root)
  unfolding root_to_update
  root_to_update-Preserves cluster_name spec_name profile_name mgmt_url w old root prof base h =
      elim (Result-cases (or_annotation old "arlon.io/clusterspec" "clusterspec" spec_name)) [
        | inr (_, e) ↦ absurd (let k = rw (root_to_update, e) at h in ground (arith, k))
        | inl (spec, e) ↦
            elim (Result-cases (or_annotation old "arlon.io/profile" "profile" profile_name)) [
              | inr (_, f) ↦ absurd (let k = rw (root_to_update, e, f) at h in ground (arith, k))
              | inl (name, f) ↦ elim (Result-cases (api.get_profile name w)) [
                | inr (_, g) ↦
                    absurd (let k = rw (root_to_update, e, f, g) at h in ground (arith, k))
                | inl (p, g) ↦ elim (Result-cases (api.kube_client w)) [
                  | inr (_, u) ↦
                      absurd (let k = rw (root_to_update, e, f, g, u) at h in ground (arith, k))
                  | inl (tt, u) ↦ elim (Result-cases (api.get_config_map spec w)) [
                    | inr (_, c) ↦
                        absurd
                          (let k = rw (root_to_update, e, f, g, u, c) at h in ground (arith, k))
                    | inl (cm, c) ↦
                        elim (Result-cases
                          (new_root api finalizer argocd_ns cluster_name spec mgmt_url old p cm)) [
                            | inr (_, n) ↦ absurd (
                                let k = rw (root_to_update, e, f, g, u, c, n) at h in
                                ground (arith, k))
                            | inl ((made, b), n) ↦
                                let k = ok_injective (rw (root_to_update, e, f, g, u, c, n) at h) in
                                let same : made ≡ root =
                                  ap (λ (x : Application × (Profile × String)). x.0) k in
                                let based : b ≡ base =
                                  ap (λ (x : Application × (Profile × String)). x.1.1) k in
                                (
                                  spec,
                                  (
                                    cm,
                                    e,
                                    c,
                                    new_root-Preserves cluster_name spec mgmt_url old p cm root base
                                        (n
                                          ∙ ap (λ (x : Application × String). ok x)
                                              (ap₂ (λ x y. (x, y)) same based)),
                                  ),
                                )
                          ]
                  ]
                ]
              ]
            ]
      ]

existing-eq-ok :
    (context : String) (a : Answer) (app : Application)
    → existing context a ≡ ok app
    → a ≡ found app
existing-eq-ok context (found b) app h = ap (λ x. found x) (ok_injective h)
existing-eq-ok context (failed code e) app h = absurd (ground arith)

module _ (api : Api) (finalizer argocd_ns : String) where
  -- An update that ends well found the old root application and the config map of a specification:
  -- the given one, or else that of the old application's annotation. The new root application that
  -- it answers stands at the same repository and path as the old one, the path is that of the
  -- cluster's name, and the old application has the Helm parameter of the cluster type that the
  -- specification has.
  pub update-Preserves :
      (cluster_name spec_name profile_name : String) (update_in_argocd : Bool) (mgmt_url : String)
      (w w' : api.World) (root : Application)
      → update api finalizer argocd_ns cluster_name spec_name profile_name update_in_argocd mgmt_url
          w
        ≡ (ok root, w')
      → (old : Application) × ((spec base : String) × ((cm : ConfigMap) × (api.get_app cluster_name
                w
              ≡ found old)
            × (or_annotation old "arlon.io/clusterspec" "clusterspec" spec_name ≡ ok spec)
            × (api.get_config_map spec w ≡ ok cm)
            × Preserves cluster_name base cm old root))
  unfolding update
  update-Preserves cluster_name spec_name profile_name update_in_argocd mgmt_url w w' root h =
      elim (Result-cases (existing "failed to get argocd app: " (api.get_app cluster_name w))) [
        | inr (_, e) ↦ absurd (let k = rw (update, e) at h in ground (arith, k))
        | inl (old, e) ↦
            elim (Result-cases (
              root_to_update api finalizer argocd_ns cluster_name spec_name profile_name mgmt_url w
                old)) [
                  | inr (_, f) ↦ absurd (let k = rw (update, e, f) at h in ground (arith, k))
                  | inl ((made, (prof, base)), f) ↦
                      elim (Result-cases
                        (write_update api finalizer argocd_ns cluster_name update_in_argocd old
                          (made, (prof, base)) w).0) [
                            | inr (_, g) ↦
                                absurd (let k = rw (update, e, f, g) at h in ground (arith, k))
                            | inl (tt, g) ↦
                                let same : made ≡ root = ok_injective (
                                  ap (λ (r : Result Application × api.World). r.0)
                                    (rw (update, e, f, g) at h)) in
                                let (spec, (cm, a, c, kept)) =
                                  root_to_update-Preserves api finalizer argocd_ns cluster_name
                                    spec_name profile_name mgmt_url w old made prof base f in
                                (
                                  old,
                                  (
                                    spec,
                                    base,
                                    (
                                      cm,
                                      existing-eq-ok "failed to get argocd app: "
                                          (api.get_app cluster_name w) old e,
                                      a,
                                      c,
                                      subst (λ x. Preserves cluster_name base cm old x) same kept,
                                    ),
                                  ),
                                )
                          ]
                ]
      ]
