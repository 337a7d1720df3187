-- ===== src/Bundles/Laws.antt =====
-- What the calls on bundles leave behind.
use mathlib.Core.Path.{subst}
use arlon.Prelude.{
  String, false, ◌≡◌, ◌⊎◌, refl, ◌∙◌, sym, ap, inl, inr, none, some, [], ◌∷◌, arith, ◌==◌,
  string_eq, Bool-cases,
}
use arlon.Go.Exec.{ok, Exec, Result-cases, ok_injective, wrapped-eq-ok}
use arlon.Go.Map.{insert, lookup}
use arlon.Bundles.{
  Secret, Secrets, Bundle, Source, bundle_of, static_secret, dynamic_secret, check_name,
  check_absent, secret_of, create, get_bundles_from_profile,
}

-- What such a call has written is what the next read gives.
abbrev pub Stores : (api : Secrets) → (Secret → Exec api.World (Unit {0})) → Type 0
Stores api call =
    (secr : Secret) (w w' : api.World) → call secr w ≡ (ok tt, w') → api.get secr.name w' ≡ ok secr

-- A secret that is read under a name has that name.
abbrev pub ReadsByName : Secrets → Type 0
ReadsByName api =
    (name : String) (secr : Secret) (w : api.World) → api.get name w ≡ ok secr → secr.name ≡ name

-- The bundle of a file, and the bundle of a reference to git.
abbrev pub static_bundle : String → String → Bundle
static_bundle name contents = record {
  name = name;
  contents = some contents;
  repo_url = "";
  repo_path = "";
  repo_revision = "";
  src_type = "";
}

abbrev pub dynamic_bundle : String → Source → Bundle
dynamic_bundle name src = record {
  name = name;
  contents = none;
  repo_url = src.repo_url;
  repo_path = src.repo_path;
  repo_revision = src.repo_revision;
  src_type = src.src_type;
}

pub bundle_of-static_secret :
    (name : String) (src : Source) (c : String)
    → bundle_of name (static_secret name src c) ≡ static_bundle name c
unfolding static_secret insert lookup string_eq
bundle_of-static_secret name src c = refl

pub bundle_of-dynamic_secret :
    (name : String) (src : Source)
    → bundle_of name (dynamic_secret name src) ≡ dynamic_bundle name src
unfolding dynamic_secret insert lookup string_eq
bundle_of-dynamic_secret name src = refl

module _ (api : Secrets) where
  create_parts :
      (name : String) (src : Source) (w w' : api.World)
      → create api name src w ≡ (ok tt, w')
      → (check_name api name ≡ ok tt)
        × (check_absent api name w ≡ ok tt)
        × ((secr : Secret) × (secret_of api name src w ≡ ok secr)
            × (api.create secr w ≡ (ok tt, w')))
  unfolding create
  create_parts name src w w' h = elim (Result-cases (check_name api name)) [
    | inr (_, e) ↦ absurd (let k = rw (create, e) at h in ground (arith, k))
    | inl (tt, e) ↦ elim (Result-cases (check_absent api name w)) [
      | inr (_, f) ↦ absurd (let k = rw (create, e, f) at h in ground (arith, k))
      | inl (tt, f) ↦ elim (Result-cases (secret_of api name src w)) [
        | inr (_, g) ↦ absurd (let k = rw (create, e, f, g) at h in ground (arith, k))
        | inl (secr, g) ↦ (
          e,
          f,
          (
            secr,
            g,
            wrapped-eq-ok "failed to create secret: " (api.create secr) w
                (rw (create, e, f, g) at h),
          ),
        )
      ]
    ]
  ]

  -- The two kinds of secrets that there are.
  pub secret_of_cases :
      (name : String) (src : Source) (w : api.World) (secr : Secret)
      → secret_of api name src w ≡ ok secr
      → ((c : String) × (api.read_file src.from_file w ≡ ok c)
          × (src.repo_url ≡ "")
          × (secr ≡ static_secret name src c))
        ⊎ ((src.from_file ≡ "") × ((src.repo_url == "") ≡ false) × (secr ≡ dynamic_secret name src))
  unfolding secret_of
  secret_of_cases name src w secr h = elim (Bool-cases (src.from_file == "")) [
    | inl e ↦ elim (Bool-cases (src.repo_url == "")) [
      | inl f ↦ absurd (let k = rw (secret_of, e, f) at h in ground (arith, k))
      | inr f ↦ inr (ground (arith, e), f, sym (ok_injective (rw (secret_of, e, f) at h)))
    ]
    | inr e ↦ elim (Bool-cases (src.repo_url == "")) [
      | inr f ↦ absurd (let k = rw (secret_of, e, f) at h in ground (arith, k))
      | inl f ↦ elim (Result-cases (api.read_file src.from_file w)) [
        | inr (_, g) ↦ absurd (let k = rw (secret_of, e, f, g) at h in ground (arith, k))
        | inl (c, g) ↦
            inl (c, g, ground (arith, f), sym (ok_injective (rw (secret_of, e, f, g) at h)))
      ]
    ]
  ]

  get_one :
      (name : String) (secr : Secret) (w : api.World)
      → api.get name w ≡ ok secr
      → get_bundles_from_profile api (name ∷ []) w ≡ ok (bundle_of name secr ∷ [])
  unfolding get_bundles_from_profile
  get_one name secr w h = rw (get_bundles_from_profile, h) refl

  found_static :
      (name : String) (src : Source) (c : String) (secr : Secret) (w : api.World)
      → secr ≡ static_secret name src c
      → api.get secr.name w ≡ ok secr
      → api.get name w ≡ ok (static_secret name src c)
  unfolding static_secret
  found_static name src c secr w same found =
      subst (λ (s : Secret). api.get s.name w ≡ ok s) same found

  found_dynamic :
      (name : String) (src : Source) (secr : Secret) (w : api.World)
      → secr ≡ dynamic_secret name src
      → api.get secr.name w ≡ ok secr
      → api.get name w ≡ ok (dynamic_secret name src)
  unfolding dynamic_secret
  found_dynamic name src secr w same found =
      subst (λ (s : Secret). api.get s.name w ≡ ok s) same found

  -- When `create` succeeds, on an API whose creations are read back: the name is valid and read as
  -- not found before, and the bundle that a profile now gets by the name is either the static one
  -- with the contents of the file, with no repository given, or the dynamic one with the given
  -- reference to git, with no file given.
  pub create-get_bundles_from_profile :
      (name : String) (src : Source) (w w' : api.World)
      → Stores api api.create
      → create api name src w ≡ (ok tt, w')
      → (check_name api name ≡ ok tt)
        × (check_absent api name w ≡ ok tt)
        × (((c : String) × (api.read_file src.from_file w ≡ ok c)
              × (src.repo_url ≡ "")
              × (get_bundles_from_profile api (name ∷ []) w' ≡ ok (static_bundle name c ∷ [])))
            ⊎ ((src.from_file ≡ "")
                × (get_bundles_from_profile api (name ∷ []) w'
                    ≡ ok (dynamic_bundle name src ∷ []))))
  create-get_bundles_from_profile name src w w' stores done =
      let (valid, absent, (secr, made, written)) = create_parts name src w w' done in
      let found = stores secr w w' written in
      (
        valid,
        absent,
        elim (secret_of_cases name src w secr made) [
          | inl (c, file, no_repo, same) ↦ inl (
            c,
            file,
            no_repo,
            get_one name (static_secret name src c) w' (found_static name src c secr w' same found)
                ∙ ap (λ b. ok (b ∷ [])) (bundle_of-static_secret name src c),
          )
          | inr (no_file, _, same) ↦ inr (
            no_file,
            get_one name (dynamic_secret name src) w' (found_dynamic name src secr w' same found)
                ∙ ap (λ b. ok (b ∷ [])) (bundle_of-dynamic_secret name src),
          )
        ],
      )
