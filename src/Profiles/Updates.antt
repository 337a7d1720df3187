-- ===== src/Profiles/Updates.antt =====
-- What an update makes of a profile.
use mathlib.Core.Path.{subst}
use arlon.Prelude.{
  String, ◌≡◌, ◌≢◌, refl, ◌∙◌, ap, sym, inl, inr, Bool, true, false, not, ◌||◌, Option, none, some,
  List, [], ◌∷◌, arith, elem, string_eq, if◌then◌else◌, Bool-cases, ◌==◌,
}
use arlon.Go.Exec.{
  ok, Exec, pure, Result-cases, continue-eq-ok, continue-pure_ok, wrapped, wrapped-eq-ok, reads,
  ◌>>◌,
}
use arlon.Go.Sets.{Sets, IsLawful, from_slice, contains-from_slice}
use arlon.Profiles.{
  Override, Profile, Profiles, Changes, string_list_from_comma_separated, string_lists_equivalent,
  with_description, with_tags, with_bundles, with_overrides, revised, wanted_bundles,
}
use arlon.Profiles.Lists.{
  LackCommas, string_list_from_comma_separated-comma_separated_from_string_list,
}
use arlon.Profiles.Merge.{value_of, value_after, value_of-merge, merge_clean}
use arlon.Profiles.Calls.{write_revised_in_git, write_revised, profile_to_update, update}

-- The names can be told apart in a comma separated list.
abbrev pub AreNames : List String → Type 0
AreNames names = LackCommas names × (names ≢ "" ∷ [])

abbrev pub wanted_names : Option (List String) → Profile → List String
wanted_names none p = p.bundles
wanted_names (some names) p = names

all_false :
    (a b c d : Bool)
    → (a || (b || (c || d))) ≡ false
    → (a ≡ false) × (b ≡ false) × (c ≡ false) × (d ≡ false)
all_false a b c d h = ground (arith, h)

wanted_same :
    (o : Option (List String)) (p q : Profile)
    → q.bundles ≡ p.bundles
    → wanted_names o q ≡ wanted_names o p
wanted_same none p q h = h
wanted_same (some names) p q h = refl

module _ (S : Sets) (L : IsLawful S) where
  elem-equivalent :
      (xs ys : List String) (a : String)
      → string_lists_equivalent S xs ys ≡ true
      → elem a xs ≡ elem a ys
  unfolding string_lists_equivalent
  elem-equivalent xs ys a h =
      sym (contains-from_slice S L xs a)
      ∙ ((L.equal_iff (from_slice S xs) (from_slice S ys)).0 h a ∙ contains-from_slice S L ys a)

  wanted_lem :
      (o : Option (List String)) (p : Profile)
      → AreNames (wanted_names o p)
      → string_list_from_comma_separated (wanted_bundles S o p) ≡ wanted_names o p
  wanted_lem none p (l, f) =
      string_list_from_comma_separated-comma_separated_from_string_list p.bundles l f
  wanted_lem (some names) p (l, f) =
      string_list_from_comma_separated-comma_separated_from_string_list names l f

  elem-with_bundles :
      (o : Option (List String)) (p : Profile) (a : String)
      → AreNames (wanted_names o p)
      → elem a (with_bundles S o p).0.bundles ≡ elem a (wanted_names o p)
  elem-with_bundles o p a names =
      elim (Bool-cases (
        string_lists_equivalent S (string_list_from_comma_separated (wanted_bundles S o p))
          p.bundles)) [
            | inr e ↦ rw (e) (ap (elem a) (wanted_lem o p names))
            | inl e ↦
                rw (e) (sym (elem-equivalent _ p.bundles a e) ∙ ap (elem a) (wanted_lem o p names))
          ]

  -- What the first two steps keep.
  abbrev Keeps : Profile → Profile → Type 0
  Keeps old new =
      (new.name ≡ old.name)
      × (new.bundles ≡ old.bundles)
      × (new.overrides ≡ old.overrides)
      × (new.repo_url ≡ old.repo_url)
      × (new.repo_path ≡ old.repo_path)
      × (new.repo_revision ≡ old.repo_revision)

  with_description-Keeps : (text : String) (p : Profile) → Keeps p (with_description S text p).0
  with_description-Keeps text p = ground arith

  with_description-tags :
      (text : String) (p : Profile) → (with_description S text p).0.tags ≡ p.tags
  with_description-tags text p = ground arith

  with_tags-Keeps : (text : String) (p : Profile) → Keeps p (with_tags S text p).0
  with_tags-Keeps text p = ground arith

  with_bundles_lem :
      (o : Option (List String)) (p : Profile)
      → ((with_bundles S o p).0.name ≡ p.name)
        × ((with_bundles S o p).0.overrides ≡ p.overrides)
        × ((with_bundles S o p).0.repo_url ≡ p.repo_url)
        × ((with_bundles S o p).0.repo_path ≡ p.repo_path)
        × ((with_bundles S o p).0.repo_revision ≡ p.repo_revision)
        × ((with_bundles S o p).0.description ≡ p.description)
        × ((with_bundles S o p).0.tags ≡ p.tags)
  with_bundles_lem o p = ground arith

  -- The texts are replaced first.
  abbrev with_texts : Changes → Profile → Profile
  with_texts ch p = (with_tags S ch.tags (with_description S ch.description p).0).0

  with_texts-Keeps : (ch : Changes) (p : Profile) → Keeps p (with_texts ch p)
  with_texts-Keeps ch p =
      let (n, b, o, u, q, r) = with_tags-Keeps ch.tags (with_description S ch.description p).0 in
      let (n', b', o', u', q', r') = with_description-Keeps ch.description p in
      (n ∙ n', b ∙ b', o ∙ o', u ∙ u', q ∙ q', r ∙ r')

  wanted_names-with_texts :
      (ch : Changes) (p : Profile)
      → wanted_names ch.bundles (with_texts ch p) ≡ wanted_names ch.bundles p
  wanted_names-with_texts ch p =
      wanted_same ch.bundles p (with_texts ch p) (with_texts-Keeps ch p).1

  -- A text that is not given leaves the old one.
  abbrev pub given_or : String → String → String
  given_or old text = if text == "" then old else text

  abbrev pub wanted_tags : String → Profile → List String
  wanted_tags text p = if text == "" then p.tags else string_list_from_comma_separated text

  described :
      (ch : Changes) (p : Profile)
      → (with_texts ch p).description ≡ given_or p.description ch.description
  described ch p = ground arith

  elem-with_tags :
      (text : String) (p : Profile) (a : String)
      → elem a (with_tags S text p).0.tags ≡ elem a (wanted_tags text p)
  elem-with_tags text p a = elim (Bool-cases (text == "")) [
    | inl e ↦ rw (e) refl
    | inr e ↦
        elim (Bool-cases
          (string_lists_equivalent S (string_list_from_comma_separated text) p.tags)) [
            | inl f ↦ rw (e, f) (sym (elem-equivalent _ p.tags a f))
            | inr f ↦ rw (e, f) refl
          ]
  ]

  tagged :
      (ch : Changes) (p : Profile) (a : String)
      → elem a (with_texts ch p).tags ≡ elem a (wanted_tags ch.tags p)
  tagged ch p a =
      elem-with_tags ch.tags (with_description S ch.description p).0 a
      ∙ ap
          (λ tags.
            elem a (if ch.tags == "" then tags else string_list_from_comma_separated ch.tags))
          (with_description-tags ch.description p)

  -- The profile `new` is `old` with the changes: same name and repository; the description and, as a
  -- set, the tags that are given, or as before; each override as the last new one for it says, or as
  -- before; and the bundles that are wanted, as a set.
  abbrev pub Revises : Changes → Profile → Profile → Type 0
  Revises ch old new =
      (new.name ≡ old.name)
      × (new.repo_url ≡ old.repo_url)
      × (new.repo_path ≡ old.repo_path)
      × (new.repo_revision ≡ old.repo_revision)
      × ((bundle key : String)
          → value_of bundle key new.overrides
            ≡ value_after bundle key ch.overrides (value_of bundle key old.overrides))
      × ((a : String) → elem a new.bundles ≡ elem a (wanted_names ch.bundles old))
      × (new.description ≡ given_or old.description ch.description)
      × ((a : String) → elem a new.tags ≡ elem a (wanted_tags ch.tags old))

  revised-Revises :
      (ch : Changes) (old : Profile)
      → AreNames (wanted_names ch.bundles old)
      → Revises ch old (revised S ch old).0
  unfolding revised
  revised-Revises ch old names =
      let p = with_texts ch old in
      let (n, b, o, u, q, r) = with_texts-Keeps ch old in
      let (n', o', u', q', r', d', t') = with_bundles_lem ch.bundles p in
      let same = wanted_names-with_texts ch old in
      (
        n' ∙ n,
        u' ∙ u,
        q' ∙ q,
        r' ∙ r,
        λ bundle key.
            value_of-merge bundle key ch.overrides (with_bundles S ch.bundles p).0.overrides
            ∙ ap (λ l. value_after bundle key ch.overrides (value_of bundle key l)) (o' ∙ o),
        λ a.
            elem-with_bundles ch.bundles p a (subst (λ l. AreNames l) (sym same) names)
            ∙ ap (elem a) same,
        d' ∙ described ch old,
        λ a. ap (elem a) t' ∙ tagged ch old a,
      )

  with_description_clean :
      (text : String) (p : Profile)
      → (with_description S text p).1 ≡ false
      → (with_description S text p).0 ≡ p
  with_description_clean text p h = ground (arith, h)

  with_tags_clean :
      (text : String) (p : Profile) → (with_tags S text p).1 ≡ false → (with_tags S text p).0 ≡ p
  with_tags_clean text p h = ground (arith, h)

  with_bundles_clean :
      (o : Option (List String)) (p : Profile)
      → (with_bundles S o p).1 ≡ false
      → (with_bundles S o p).0 ≡ p
  with_bundles_clean o p h = ground (arith, h)

  with_overrides_clean :
      (os : List Override) (p : Profile)
      → (with_overrides S os p).1 ≡ false
      → (with_overrides S os p).0 ≡ p
  with_overrides_clean os p h = ap (λ l. record p { overrides = l }) (merge_clean os p.overrides h)

  revised_clean : (ch : Changes) (p : Profile) → (revised S ch p).1 ≡ false → (revised S ch p).0 ≡ p
  unfolding revised
  revised_clean ch p h =
      let described = with_description S ch.description p in
      let tagged = with_tags S ch.tags described.0 in
      let bundled = with_bundles S ch.bundles tagged.0 in
      let (first, second, third, fourth) = all_false described.1 tagged.1 bundled.1 _ h in
      with_overrides_clean ch.overrides bundled.0 fourth
      ∙ (with_bundles_clean ch.bundles tagged.0 third
          ∙ (with_tags_clean ch.tags described.0 second
              ∙ with_description_clean ch.description p first))

  module _ (api : Profiles) where
    -- An update of a profile is what the next read gives.
    abbrev pub StoresProfiles : Type 0
    StoresProfiles =
        (p : Profile) (w w' : api.secrets.World)
        → api.update p w ≡ (ok tt, w')
        → api.get p.name w' ≡ ok p

    write_revised-get :
        (p : Profile) (w w' : api.secrets.World)
        → StoresProfiles
        → write_revised S api p w ≡ (ok tt, w')
        → api.get p.name w' ≡ ok p
    unfolding write_revised
    write_revised-get p w w' stores h =
        let last : Exec api.secrets.World (Unit {0}) =
          wrapped "failed to update profile: " (api.update p) in
        let client : Exec api.secrets.World (Unit {0}) =
          wrapped "failed to get new controller runtime client: " (reads api.client) in
        let (_, _, both) =
          continue-eq-ok (write_revised_in_git S api p w) (λ _. client >> last) h in
        let (_, _, done) = continue-eq-ok (client _) (λ _. last) both in
        stores p _ w' (wrapped-eq-ok "failed to update profile: " (api.update p) _ done)

    finish :
        (old new : Profile) (d b : Bool) (w w' : api.secrets.World)
        → StoresProfiles
        → (d ≡ false → new ≡ old)
        → (if not d then pure false else write_revised S api new >> pure true) w ≡ (ok b, w')
        → if b then api.get new.name w' ≡ ok new else (w' ≡ w) × (new ≡ old)
    finish old new false false w w' stores clean h = (ground (arith, h), clean refl)
    finish old new false true w w' stores clean h = absurd (ground (arith, h))
    finish old new true b w w' stores clean h =
        let (_, _, same) = continue-eq-ok (write_revised S api new w) (λ _. pure true) h in
        let found =
          write_revised-get new w w' stores (continue-pure_ok (write_revised S api new w) true h) in
        let yes_ : true ≡ b = ground (arith, same) in
        subst (λ b. if b then api.get new.name w' ≡ ok new else (w' ≡ w) × (new ≡ old)) yes_ found

    -- When `update` succeeds, on an API whose updates are read back: it found a profile `old` that
    -- it may update. If it answers true, the name of `old` now reads as a profile that is `old` with
    -- the changes (description, tags, bundles and overrides), where the names of the wanted bundles
    -- have no commas and are not just one empty name; if it answers false, nothing was written, and `old` itself has the changes already.
    pub update-Revises :
        (name : String) (ch : Changes) (w w' : api.secrets.World) (b : Bool)
        → StoresProfiles
        → update S api name ch w ≡ (ok b, w')
        → (old : Profile) × (profile_to_update S api name ch w ≡ ok old)
          × (AreNames (wanted_names ch.bundles old)
              → (new : Profile) × Revises ch old new
                × (if b then api.get new.name w' ≡ ok new else (w' ≡ w) × (new ≡ old)))
    unfolding update
    update-Revises name ch w w' b stores h =
        elim (Result-cases (profile_to_update S api name ch w)) [
          | inr (_, e) ↦ absurd (let k = rw (update, e) at h in ground (arith, k))
          | inl (old, e) ↦ (
            old,
            e,
            λ names. (
              (revised S ch old).0,
              revised-Revises ch old names,
              finish old (revised S ch old).0 (revised S ch old).1 b w w' stores
                  (revised_clean ch old) (rw (update, e) at h),
            ),
          )
        ]
