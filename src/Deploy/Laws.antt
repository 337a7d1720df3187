-- ===== src/Deploy/Laws.antt =====
-- Which bundles can be written to a working tree.
use arlon.Prelude.{
  String, ◌<>◌, ◌≡◌, ◌⊎◌, refl, ◌∙◌, ap, sym, inl, inr, Bool, true, false, not, ◌&&◌, none, some,
  List, [], ◌∷◌, arith, ◌==◌, string_eq, if◌then◌else◌, ==-refl, Bool-cases, Option-cases,
}
use mathlib.Core.Path.{subst}
use arlon.Go.Exec.{continue, ◌>>◌, Result, ok, err, Exec}
use arlon.Bundles.{Bundle, Secret, Secrets, Source, bundle_of, secret_of}
use arlon.Bundles.Laws.{
  secret_of_cases, static_bundle, dynamic_bundle, bundle_of-static_secret, bundle_of-dynamic_secret,
}
use arlon.Git.{Git}
use arlon.Deploy.{
  AppSettings, app_settings, write_static, write_app, process_bundles, dynamic_settings,
  static_settings,
}

-- A bundle either holds a manifest or refers to git.
abbrev pub has_one_kind : Bundle → Bool
has_one_kind b = elim b.contents [ none ↦ not (b.repo_url == "") | some _ ↦ b.repo_url == "" ]

abbrev pub have_one_kind : List Bundle → Bool
have_one_kind [] = true
have_one_kind (b ∷ bs) = has_one_kind b && have_one_kind bs

abbrev pub is_ok : {A : Type 0} → Result A → Bool
is_ok (ok a) = true
is_ok (err e) = false

app_settings_cases :
    (cluster_name repo_url workload_path : String) (overrides : String → List (String × String))
    (b : Bundle)
    → ((s : AppSettings) × (app_settings cluster_name repo_url workload_path overrides b ≡ ok s)
        × (has_one_kind b ≡ true))
      ⊎ ((e : String) × (app_settings cluster_name repo_url workload_path overrides b ≡ err e)
          × (has_one_kind b ≡ false))
unfolding app_settings
app_settings_cases cluster_name repo_url workload_path overrides b =
    elim (Option-cases b.contents) [
      | inl e ↦ elim (Bool-cases (b.repo_url == "")) [
        | inl f ↦ inr (
          "b " <> (b.name <> " is neither static nor dynamic type"),
          rw (app_settings, e, f) refl,
          rw (e, f) refl,
        )
        | inr f ↦ inl (
          dynamic_settings cluster_name (overrides b.name) b,
          rw (app_settings, e, f) refl,
          rw (e, f) refl,
        )
      ]
      | inr (text, e) ↦ elim (Bool-cases (b.repo_url == "")) [
        | inl f ↦ inl (
          static_settings cluster_name repo_url workload_path b,
          rw (app_settings, e, f) refl,
          rw (e, f) refl,
        )
        | inr f ↦ inr (
          "b " <> (b.name <> " has both data and repoUrl set"),
          rw (app_settings, e, f) refl,
          rw (e, f) refl,
        )
      ]
    ]

abbrev Applied :
    (name : String)
    → Source
    → (cluster_name repo_url workload_path : String) → (overrides : String → List (String × String))
    → Bundle
    → Type 0
Applied name src cluster_name repo_url workload_path overrides b =
    (s : AppSettings) × (app_settings cluster_name repo_url workload_path overrides b ≡ ok s)
    × (s.repo_url ≡ (if src.repo_url == "" then repo_url else src.repo_url))

static_Applied :
    (name : String) (src : Source) (c cluster_name repo_url workload_path : String)
    (overrides : String → List (String × String))
    → src.repo_url ≡ ""
    → Applied name src cluster_name repo_url workload_path overrides (static_bundle name c)
unfolding app_settings
static_Applied name src c cluster_name repo_url workload_path overrides no_repo = (
  static_settings cluster_name repo_url workload_path (static_bundle name c),
  rw (app_settings, ==-refl {A = String} "") refl,
  rw (no_repo, ==-refl {A = String} "") refl,
)

dynamic_Applied :
    (name : String) (src : Source) (cluster_name repo_url workload_path : String)
    (overrides : String → List (String × String))
    → (src.repo_url == "") ≡ false
    → Applied name src cluster_name repo_url workload_path overrides (dynamic_bundle name src)
unfolding app_settings
dynamic_Applied name src cluster_name repo_url workload_path overrides f = (
  dynamic_settings cluster_name (overrides name) (dynamic_bundle name src),
  rw (app_settings, f) refl,
  rw (f) refl,
)

-- The bundle that is read from a secret which `create` makes of its arguments, from a file or from a
-- reference to git, has an application: its settings name the bundle's own repository where it
-- has one, and the given one where it holds a manifest.
pub app_settings-secret_of :
    (api : Secrets) (name : String) (src : Source) (w : api.World) (secr : Secret)
    → secret_of api name src w ≡ ok secr
    → (cluster_name repo_url workload_path : String) (overrides : String → List (String × String))
    → (s : AppSettings) × (app_settings cluster_name repo_url workload_path overrides
          (bundle_of name secr)
        ≡ ok s)
      × (s.repo_url ≡ (if src.repo_url == "" then repo_url else src.repo_url))
unfolding app_settings
app_settings-secret_of api name src w secr h cluster_name repo_url workload_path overrides =
    elim (secret_of_cases api name src w secr h) [
      | inl (c, _, no_repo, same) ↦
          subst
            (λ x. Applied name src cluster_name repo_url workload_path overrides (bundle_of name x))
            (sym same)
            (subst (λ b. Applied name src cluster_name repo_url workload_path overrides b)
              (sym (bundle_of-static_secret name src c))
              (static_Applied name src c cluster_name repo_url workload_path overrides no_repo))
      | inr (_, f, same) ↦
          subst
            (λ x. Applied name src cluster_name repo_url workload_path overrides (bundle_of name x))
            (sym same)
            (subst (λ b. Applied name src cluster_name repo_url workload_path overrides b)
              (sym (bundle_of-dynamic_secret name src))
              (dynamic_Applied name src cluster_name repo_url workload_path overrides f))
    ]

-- After a call that ends well comes the rest.
continue-ok :
    {W : Type 0} (r : Result (Unit {0}) × W) (rest : Exec W (Unit {0}))
    → r.0 ≡ ok tt
    → continue r (λ _. rest) ≡ rest r.1
continue-ok (ok tt, w) rest h = refl
continue-ok (err e, w) rest h = absurd (ground arith)

module _ (git : Git) (render : AppSettings → Result String) where
  -- The calls on files and the template do not fail.
  abbrev pub Writes : Type 0
  Writes =
      ((path : String) (w : git.World) → (git.mkdir_all path w).0 ≡ ok tt)
      × ((path : String) (w : git.World) → (git.create path w).0 ≡ ok tt)
      × ((path text : String) (w : git.World) → (git.write path text w).0 ≡ ok tt)
      × ((settings : AppSettings) → (text : String) × (render settings ≡ ok text))

  write_static_ok :
      Writes
      → (workload_path : String) (b : Bundle) (w : git.World)
      → (write_static git render workload_path b w).0 ≡ ok tt
  unfolding write_static
  write_static_ok (mkdir, create, write, _) workload_path b w = elim (Option-cases b.contents) [
    | inl e ↦ rw (write_static, e) refl
    | inr (text, e) ↦ rw (write_static, e, mkdir, create, write) refl
  ]

  write_app_ok :
      Writes
      → (mgmt_path : String) (b : Bundle) (settings : AppSettings) (w : git.World)
      → (write_app git render mgmt_path b settings w).0 ≡ ok tt
  unfolding write_app
  write_app_ok (_, create, write, rendered) mgmt_path b settings w =
      let (text, e) = rendered settings in rw (write_app, create, e, write) refl

  write_ok :
      Writes
      → (workload_path mgmt_path : String) (b : Bundle) (settings : AppSettings) (w : git.World)
      → ((write_static git render workload_path b >> write_app git render mgmt_path b settings) w).0
        ≡ ok tt
  write_ok writes workload_path mgmt_path b settings w =
      ap (λ (r : Result (Unit {0}) × git.World). r.0)
        (continue-ok (write_static git render workload_path b w)
          (write_app git render mgmt_path b settings) (write_static_ok writes workload_path b w))
      ∙ write_app_ok writes mgmt_path b settings (write_static git render workload_path b w).1

  -- Where the calls on files and the template do not fail, the bundles are written without an error
  -- exactly if each of them either holds a manifest or refers to git.
  pub process_bundles-have_one_kind :
      Writes
      → (cluster_name repo_url mgmt_path workload_path : String)
        (overrides : String → List (String × String)) (bs : List Bundle) (w : git.World)
      → is_ok
          (process_bundles git render cluster_name repo_url mgmt_path workload_path overrides bs
            w).0
        ≡ have_one_kind bs
  unfolding process_bundles
  process_bundles-have_one_kind writes cluster_name repo_url mgmt_path workload_path overrides []
        w =
      refl
  process_bundles-have_one_kind writes cluster_name repo_url mgmt_path workload_path overrides
        (b ∷ bs) w =
      elim (app_settings_cases cluster_name repo_url workload_path overrides b) [
        | inr (_, e, f) ↦ rw (process_bundles, e, f) refl
        | inl (s, e, f) ↦
            let write : Exec git.World (Unit {0}) =
              write_static git render workload_path b >> write_app git render mgmt_path b s in
            let others : Exec git.World (Unit {0}) =
              process_bundles git render cluster_name repo_url mgmt_path workload_path overrides
                bs in
            let written = write_ok writes workload_path mgmt_path b s w in
            let run : process_bundles git render cluster_name repo_url mgmt_path workload_path
                  overrides (b ∷ bs) w
                ≡ others (write w).1 =
              rw (process_bundles, e) (continue-ok (write w) others written) in
            let rest =
              process_bundles-have_one_kind writes cluster_name repo_url mgmt_path workload_path
                overrides bs (write w).1 in
            ap (λ (r : Result (Unit {0}) × git.World). is_ok r.0) run
            ∙ (rest ∙ sym (ap (λ one. one && have_one_kind bs) f))
      ]
