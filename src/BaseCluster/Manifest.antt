-- ===== src/BaseCluster/Manifest.antt =====
-- A prepared manifest is valid, and preparing it again changes nothing.
use arlon.Prelude.{
  String, ◌≡◌, refl, ◌∙◌, sym, ap, inl, inr, Bool, true, false, not, ◌||◌, ◌&&◌, List, [], ◌∷◌, map,
  arith, any, ◌==◌, string_eq, if◌then◌else◌, Bool-cases,
}
use arlon.Go.Exec.{Result, ok, ◌>>=ᵣ◌, Result-cases}
use arlon.Go.Strconv.{ℤ}
use arlon.BaseCluster.{
  Resource, Yaml, validate_from, prepare_resource, prepare_then_encode, prepare_from,
}
use arlon.BaseCluster.Resources.{
  prepare_resource-namespace, prepare_resource-kind, prepare_resource-name, prepare_twice,
}

-- The conversion of a resource gives the resource.
abbrev pub Copies : Yaml → Type 0
Copies yaml = (r : Resource) → yaml.convert r ≡ ok r

module _ (yaml : Yaml) where
  -- The documents of the resources, in order, behind what the buffer holds.
  unfoldable pub encode_all : String → List Resource → Result String
  encode_all buf [] = ok buf
  encode_all buf (r ∷ rs) = yaml.encode buf r >>=ᵣ λ next. encode_all next rs

abbrev name_after : String → Resource → String
name_after found r = if r.kind == "Cluster" then r.name else found

abbrev clashes : String → Resource → Bool
clashes found r = (r.kind == "Cluster") && not (found == "")

module _ (most least : ℤ) where
  abbrev pub prepared : List Resource → List Resource
  prepared = map (λ r. (prepare_resource most least r).0)

  abbrev pub modified : List Resource → Bool
  modified = any (λ r. (prepare_resource most least r).1)

not_filled : (found : String) → not (found == "") ≡ false → (found == "") ≡ true
not_filled found h = ground (arith, h)

validate_from_step :
    (found : String) (r : Resource) (rs : List Resource)
    → (r.namespace == "") ≡ true
    → clashes found r ≡ false
    → validate_from found (r ∷ rs) ≡ validate_from (name_after found r) rs
unfolding validate_from
validate_from_step found r rs bare c = elim (Bool-cases (r.kind == "Cluster")) [
  | inl k ↦ rw (validate_from, bare, k, not_filled found (rw (k) at c)) refl
  | inr k ↦ rw (validate_from, bare, k) refl
]

validate_from_cases :
    (found : String) (r : Resource) (rs : List Resource) (n : String)
    → validate_from found (r ∷ rs) ≡ ok n
    → (clashes found r ≡ false) × (validate_from (name_after found r) rs ≡ ok n)
unfolding validate_from
validate_from_cases found r rs n h = elim (Bool-cases (r.kind == "Cluster")) [
  | inl k ↦ ground (arith, k, h)
  | inr k ↦ ground (arith, k, h)
]

module _ (yaml : Yaml) (copies : Copies yaml) (most least : ℤ) where
  prepare_from_step :
      (found buf next : String) (dirty : Bool) (r : Resource) (rs : List Resource)
      → clashes found r ≡ false
      → yaml.encode buf (prepare_resource most least r).0 ≡ ok next
      → prepare_from yaml most least found buf dirty (r ∷ rs)
        ≡ prepare_from yaml most least
            (name_after found r)
            next
            (dirty || (prepare_resource most least r).1)
            rs
  unfolding prepare_from prepare_then_encode
  prepare_from_step found buf next dirty r rs c e =
      rw (prepare_from, c, prepare_then_encode, copies r, e) refl

  prepare_from_cases :
      (found buf : String) (dirty : Bool) (r : Resource) (rs : List Resource) {n out : String}
      {d : Bool}
      → prepare_from yaml most least found buf dirty (r ∷ rs) ≡ ok (n, out, d)
      → (clashes found r ≡ false)
        × ((next : String) × (yaml.encode buf (prepare_resource most least r).0 ≡ ok next)
            × (prepare_from yaml most least
                  (name_after found r)
                  next
                  (dirty || (prepare_resource most least r).1)
                  rs
                ≡ ok (n, out, d)))
  unfolding prepare_from prepare_then_encode
  prepare_from_cases found buf dirty r rs h = elim (Bool-cases (clashes found r)) [
    | inl c ↦ absurd (let k = rw (prepare_from, c) at h in ground (arith, k))
    | inr c ↦ elim (Result-cases (yaml.encode buf (prepare_resource most least r).0)) [
      | inr (_, e) ↦
          absurd (
            let k = rw (prepare_from, c, prepare_then_encode, copies r, e) at h in
            ground (arith, k))
      | inl (next, e) ↦ (c, (next, e, sym (prepare_from_step found buf next dirty r rs c e) ∙ h))
    ]
  ]

  pub prepare_from-encode_all :
      (found buf : String) (dirty : Bool) (rs : List Resource) {n out : String} {d : Bool}
      → prepare_from yaml most least found buf dirty rs ≡ ok (n, out, d)
      → encode_all yaml buf (prepared most least rs) ≡ ok out
  unfolding prepare_from encode_all
  prepare_from-encode_all found buf dirty [] h = ground (arith, h)
  prepare_from-encode_all found buf dirty (r ∷ rs) h =
      let (_, (next, e, rest)) = prepare_from_cases found buf dirty r rs h in
      rw (encode_all, e) (prepare_from-encode_all (name_after found r) next _ rs rest)

  pub prepare_from-dirty :
      (found buf : String) (dirty : Bool) (rs : List Resource) {n out : String} {d : Bool}
      → prepare_from yaml most least found buf dirty rs ≡ ok (n, out, d)
      → d ≡ (dirty || modified most least rs)
  unfolding prepare_from
  prepare_from-dirty found buf dirty [] h = ground (arith, h)
  prepare_from-dirty found buf dirty (r ∷ rs) h =
      let (_, (next, e, rest)) = prepare_from_cases found buf dirty r rs h in
      ground (arith, prepare_from-dirty (name_after found r) next _ rs rest)

  pub prepare_from-validate_from :
      (found buf : String) (dirty : Bool) (rs : List Resource) {n out : String} {d : Bool}
      → prepare_from yaml most least found buf dirty rs ≡ ok (n, out, d)
      → (n == "") ≡ false
      → validate_from found (prepared most least rs) ≡ ok n
  unfolding prepare_from
  prepare_from-validate_from found buf dirty [] h filled =
      unfold validate_from in ground (arith, h, filled)
  prepare_from-validate_from found buf dirty (r ∷ rs) h filled =
      let (c, (next, e, rest)) = prepare_from_cases found buf dirty r rs h in
      let ih = prepare_from-validate_from (name_after found r) next _ rs rest filled in
      let p = (prepare_resource most least r).0 in
      validate_from_step found p (prepared most least rs) (prepare_resource-namespace most least r)
        (rw (prepare_resource-kind most least r) c)
      ∙ rw (prepare_resource-kind most least r, prepare_resource-name most least r) ih

  prepare_from_clean :
      (found buf next : String) (dirty : Bool) (p : Resource) (rs : List Resource)
      → clashes found p ≡ false
      → prepare_resource most least p ≡ (p, false)
      → yaml.encode buf p ≡ ok next
      → prepare_from yaml most least found buf dirty (p ∷ rs)
        ≡ prepare_from yaml most least (name_after found p) next dirty rs
  prepare_from_clean found buf next dirty p rs c clean e =
      prepare_from_step found buf next dirty p rs c (rw (clean) e)
      ∙ rw (clean)
          (ap (λ b. prepare_from yaml most least (name_after found p) next b rs) (ground arith))

  pub prepare_from_again :
      (found buf : String) (dirty : Bool) (rs : List Resource) {n out : String}
      → encode_all yaml buf (prepared most least rs) ≡ ok out
      → validate_from found (prepared most least rs) ≡ ok n
      → prepare_from yaml most least found buf dirty (prepared most least rs) ≡ ok (n, out, dirty)
  unfolding encode_all
  prepare_from_again found buf dirty [] e v =
      unfold prepare_from validate_from in ground (arith, e, v)
  prepare_from_again found buf dirty (r ∷ rs) e v =
      let p = (prepare_resource most least r).0 in
      let (c, valid) = validate_from_cases found p (prepared most least rs) _ v in
      elim (Result-cases (yaml.encode buf p)) [
        | inr (_, f) ↦ absurd (let k = rw (encode_all, f) at e in ground (arith, k))
        | inl (next, f) ↦
            prepare_from_clean found buf next dirty p (prepared most least rs) c
              (prepare_twice most least r) f
            ∙ prepare_from_again (name_after found p) next dirty rs (rw (encode_all, f) at e) valid
      ]
