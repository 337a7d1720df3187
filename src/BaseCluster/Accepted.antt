-- ===== src/BaseCluster/Accepted.antt =====
-- What Prepare answers is valid, and stays as it is when it is prepared again.
use arlon.Prelude.{
  String, ◌≡◌, refl, sym, ap, ap₂, inl, inr, Bool, true, false, Option, none, some, List, [], ◌∷◌,
  arith, ◌==◌, string_eq, if◌then◌else◌, Bool-cases,
}
use arlon.Go.Exec.{Result, ok, ok_injective, Result-cases}
use arlon.Go.Strconv.{ℤ}
use arlon.BaseCluster.{Resource, Yaml, validate, prepare_resource, prepare_from, prepare}
use arlon.BaseCluster.Resources.{prepare_resource_same}
use arlon.BaseCluster.Manifest.{
  Copies, encode_all, prepared, modified, prepare_from-encode_all, prepare_from-dirty,
  prepare_from-validate_from, prepare_from_again,
}

module _ (parse : String → Result (List Resource)) where
  -- The manifest as it is read after `prepare`: the new one if there is one, or else the old.
  abbrev pub reread : List Resource → Option String → Result (List Resource)
  reread rs none = ok rs
  reread rs (some text) = parse text

  -- An encoded manifest reads as the resources that were encoded.
  abbrev pub Reads : Yaml → Type 0
  Reads yaml =
      (r : Resource) (rs : List Resource) (text : String)
      → encode_all yaml "" (r ∷ rs) ≡ ok text
      → parse text ≡ ok (r ∷ rs)

modified-prepared :
    (most least : ℤ) (rs : List Resource)
    → modified most least rs ≡ false
    → prepared most least rs ≡ rs
modified-prepared most least [] h = refl
modified-prepared most least (r ∷ rs) h =
    let first : (prepare_resource most least r).1 ≡ false = ground (arith, h) in
    ap₂ (λ a b. a ∷ b) (prepare_resource_same most least r first)
      (modified-prepared most least rs (ground (arith, h)))

module _ (yaml : Yaml) (parse : String → Result (List Resource)) (copies : Copies yaml)
    (reads : Reads parse yaml) (most least : ℤ) where
  prepare_parts :
      (rs : List Resource) (n : String) (o : Option String)
      → prepare yaml (ok rs) false most least ≡ ok (n, o)
      → (buf : String) × ((d : Bool) × (prepare_from yaml most least "" "" false rs
            ≡ ok (n, buf, d))
          × ((n == "") ≡ false)
          × (o ≡ (if d then some buf else none)))
  unfolding prepare
  prepare_parts rs n o h = elim (Result-cases (prepare_from yaml most least "" "" false rs)) [
    | inr (_, e) ↦ absurd (let k = rw (prepare, e) at h in ground (arith, k))
    | inl ((m, buf, d), e) ↦ elim (Bool-cases (m == "")) [
      | inl c ↦ absurd (let k = rw (prepare, e, c) at h in ground (arith, k))
      | inr c ↦
          let k = ok_injective (rw (prepare, e, c) at h) in
          let same : m ≡ n = ap (λ (x : String × Option String). x.0) k in
          let out : (if d then some buf else none) ≡ o =
            ap (λ (x : String × Option String). x.1) k in
          (buf, (d, rw (same) at e, rw (same) at c, sym out))
    ]
  ]

  reread_lem :
      (rs : List Resource) (n buf : String) (d : Bool)
      → prepare_from yaml most least "" "" false rs ≡ ok (n, buf, d)
      → (n == "") ≡ false
      → reread parse rs (if d then some buf else none) ≡ ok (prepared most least rs)
  reread_lem rs n buf false h filled = ap ok (
      sym (
        modified-prepared most least rs
          (ground (arith, prepare_from-dirty yaml copies most least "" "" false rs h))))
  reread_lem [] n buf true h filled = absurd (unfold prepare_from in ground (arith, h, filled))
  reread_lem (r ∷ rs) n buf true h filled =
      reads _ _ buf (prepare_from-encode_all yaml copies most least "" "" false (r ∷ rs) h)

  -- When `prepare` succeeds on a manifest, with or without a new one: the manifest that is read
  -- afterwards is valid, with the same cluster name.
  pub prepare-validate :
      (rs : List Resource) (n : String) (o : Option String)
      → prepare yaml (ok rs) false most least ≡ ok (n, o)
      → validate (reread parse rs o) ≡ ok n
  unfolding validate
  prepare-validate rs n o h =
      let (buf, (d, e, filled, out)) = prepare_parts rs n o h in
      rw (validate, out, reread_lem rs n buf d e filled)
        (prepare_from-validate_from yaml copies most least "" "" false rs e filled)

  -- When `prepare` succeeds on a manifest, preparing the manifest that is read afterwards succeeds
  -- too, with the same cluster name, and makes no new manifest.
  pub prepare-prepare :
      (rs : List Resource) (n : String) (o : Option String)
      → prepare yaml (ok rs) false most least ≡ ok (n, o)
      → prepare yaml (reread parse rs o) false most least ≡ ok (n, none)
  unfolding prepare
  prepare-prepare rs n o h =
      let (buf, (d, e, filled, out)) = prepare_parts rs n o h in
      let again =
        prepare_from_again yaml copies most least "" "" false rs
          (prepare_from-encode_all yaml copies most least "" "" false rs e)
          (prepare_from-validate_from yaml copies most least "" "" false rs e filled) in
      rw (prepare, out, reread_lem rs n buf d e filled, again, filled) refl
