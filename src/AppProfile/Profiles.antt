-- ===== src/AppProfile/Profiles.antt =====
-- The loop over the profiles: the clusters of each app, and the status of each profile.
use mathlib.Core.Option.{get_or}
use arlon.Prelude.{
  String, ◌≡◌, refl, sym, ◌∙◌, Bool, true, false, not, ◌&&◌, ◌||◌, Option, none, some, List, [],
  ◌∷◌, foldl, arith, any, elem, length, ltb, Related, ==-refl, string_eq, if◌then◌else◌, Bool-cases,
  inl, inr,
}
use arlon.Go.Map.{Map, lookup, lookup-insert}
use arlon.Go.Sets.{Sets, IsLawful, from_slice, contains-from_slice}
use arlon.Go.Loop.{written}
use arlon.AppProfile.External.{Profile}
use arlon.AppProfile.{
  AppNames, or_new, join_clusters, check_app_name, check_app_names, refresh_status,
  reconcile_profile,
}
use arlon.AppProfile.Clusters.{members, contains-or_new}

-- A list is empty exactly if the list that it has its members from lacks such members.
any-eq-false :
    (q : String → Bool) (ys : List String)
    → ((a : String) → false ≡ (elem a ys && q a))
    → any q ys ≡ false
any-eq-false q [] h = refl
any-eq-false q (y ∷ ys) h =
    ground (arith, h y, ==-refl y, any-eq-false q ys (λ a. ground (arith, h a)))

any_of_elem :
    (q : String → Bool) (ys : List String) (a : String)
    → elem a ys ≡ true
    → q a ≡ true
    → any q ys ≡ true
any_of_elem q [] a e h = cc
any_of_elem q (y ∷ ys) a e h = ground (arith, any_of_elem q ys a)

nonempty_iff_any :
    (q : String → Bool) (xs ys : List String)
    → ((a : String) → elem a xs ≡ (elem a ys && q a))
    → ltb 0 (length xs) ≡ any q ys
nonempty_iff_any q [] ys h = sym (any-eq-false q ys h)
nonempty_iff_any q (x ∷ xs) ys h = ground (arith, h x, ==-refl x, any_of_elem q ys x)

-- Whether a profile names an app that does not exist.
abbrev pub names_invalid : (String → Bool) → List String → Bool
names_invalid exists = any (λ a. not (exists a))

-- What the loop makes of one profile: its status says what is true of its names.
pub record Checks (exists : String → Bool) (p p' : Profile) : Type 0 where
  pub name : p'.name ≡ p.name
  pub app_names : p'.app_names ≡ p.app_names
  pub invalid : (a : String) → elem a p'.invalid_app_names ≡ (elem a p.app_names && not (exists a))
  pub health : p'.health ≡ (if names_invalid exists p.app_names then "degraded" else "healthy")

module _ (S : Sets) (L : IsLawful S) where
  contains-join_clusters :
      (o clusters : Option S.Set) (j : String)
      → S.contains (join_clusters S o clusters) j ≡ (members S L o j || members S L clusters j)
  unfolding join_clusters
  contains-join_clusters o none j = ground (arith, contains-or_new S L o j)
  contains-join_clusters o (some s) j =
      ground (arith, contains-or_new S L o j, L.contains-union (or_new S o) s j)

  module _ (valid : S.Set) (clusters : Option S.Set) where
    abbrev checked : AppNames S → List String → AppNames S
    checked = foldl (check_app_name S valid clusters)

    members-checked :
        (names : List String) (n : AppNames S) (a j : String)
        → members S L (lookup a (checked n names).app_to_clusters) j ≡ (
            members S L (lookup a n.app_to_clusters) j
            || (elem a names && S.contains valid a && members S L clusters j))
    unfolding check_app_name
    members-checked [] n a j = ground arith
    members-checked (x ∷ names) n a j =
        let joined = join_clusters S (lookup x n.app_to_clusters) clusters in
        ground (
          arith,
          members-checked names (check_app_name S valid clusters n x) a j,
          lookup-insert a x joined n.app_to_clusters,
          contains-join_clusters (lookup x n.app_to_clusters) clusters j,
        )

    invalid-checked :
        (names : List String) (n : AppNames S) (a : String)
        → S.contains (checked n names).invalid a
          ≡ (S.contains n.invalid a || (elem a names && not (S.contains valid a)))
    unfolding check_app_name
    invalid-checked [] n a = ground arith
    invalid-checked (x ∷ names) n a = ground (
      arith,
      invalid-checked names (check_app_name S valid clusters n x) a,
      L.contains-add n.invalid x a,
    )

  abbrev pub round : S.Set → Map S.Set → Map S.Set → Profile → Option Profile × Map S.Set
  round = reconcile_profile S

  module _ (valid : S.Set) (profile_to_clusters : Map S.Set) where
    after_invalid : Map S.Set → Profile → S.Set
    after_invalid m p =
        (check_app_names S valid (lookup p.name profile_to_clusters) m p.app_names).invalid

    contains-after_invalid :
        (m : Map S.Set) (p : Profile) (a : String)
        → S.contains (after_invalid m p) a ≡ (elem a p.app_names && not (S.contains valid a))
    unfolding after_invalid check_app_names
    contains-after_invalid m p a = ground (
      arith,
      invalid-checked valid (lookup p.name profile_to_clusters) p.app_names
          (record { invalid = S.empty; app_to_clusters = m }) a,
      L.contains-empty a,
    )

    abbrev same_names : Profile → S.Set → Bool
    same_names p after = S.equal (from_slice S p.invalid_app_names) after

    abbrev new_invalid : Profile → S.Set → List String
    new_invalid p after = if not (same_names p after) then S.to_slice after else p.invalid_app_names

    elem-new_invalid :
        (p : Profile) (after : S.Set) (a : String)
        → elem a (new_invalid p after) ≡ S.contains after a
    elem-new_invalid p after a = elim (Bool-cases (same_names p after)) [
      | inl e ↦ rw e (
          sym (contains-from_slice S L p.invalid_app_names a)
          ∙ (L.equal_iff (from_slice S p.invalid_app_names) after).0 e a)
      | inr e ↦ rw e (L.elem-to_slice after a)
    ]

    refresh_status-Checks :
        (p : Profile) (after : S.Set)
        → ((a : String) → S.contains after a ≡ (elem a p.app_names && not (S.contains valid a)))
        → Checks (S.contains valid) p (get_or (refresh_status S p after) p)
    unfolding refresh_status
    refresh_status-Checks p after exact =
        let now = λ (a : String). elem-new_invalid p after a ∙ exact a in
        let count =
          nonempty_iff_any (λ a. not (S.contains valid a)) (new_invalid p after) p.app_names now in
        record {
          name = ground arith;
          app_names = ground arith;
          invalid = λ a. ground (arith, now a);
          health = ground (arith, count);
        }

    -- A profile whose status is right is clean.
    refresh_status-clean :
        (p : Profile) (after : S.Set)
        → Checks (S.contains valid) p p
        → ((a : String) → S.contains after a ≡ (elem a p.app_names && not (S.contains valid a)))
        → refresh_status S p after ≡ none
    unfolding refresh_status
    refresh_status-clean p after c exact =
        let same : same_names p after ≡ true =
          (L.equal_iff (from_slice S p.invalid_app_names) after).1
            λ a. contains-from_slice S L p.invalid_app_names a ∙ c.invalid a ∙ sym (exact a) in
        let count =
          nonempty_iff_any (λ a. not (S.contains valid a)) p.invalid_app_names p.app_names
            c.invalid in
        ground (arith, same, count, c.health)

    pub reconcile_profile-Checks :
        (m : Map S.Set) (p : Profile)
        → Checks (S.contains valid) p (get_or (round valid profile_to_clusters m p).0 p)
    unfolding reconcile_profile after_invalid
    reconcile_profile-Checks m p =
        refresh_status-Checks p (after_invalid m p) (contains-after_invalid m p)

    pub reconcile_profile-clean :
        (m : Map S.Set) (p : Profile)
        → Checks (S.contains valid) p p
        → (round valid profile_to_clusters m p).0 ≡ none
    unfolding reconcile_profile after_invalid
    reconcile_profile-clean m p c =
        refresh_status-clean p (after_invalid m p) c (contains-after_invalid m p)

    members-reconcile_profile :
        (m : Map S.Set) (p : Profile) (a j : String)
        → members S L (lookup a (round valid profile_to_clusters m p).1) j ≡ (
            members S L (lookup a m) j
            || (elem a p.app_names
                && S.contains valid a
                && members S L (lookup p.name profile_to_clusters) j))
    unfolding reconcile_profile check_app_names
    members-reconcile_profile m p a j =
        members-checked valid (lookup p.name profile_to_clusters) p.app_names
          (record { invalid = S.empty; app_to_clusters = m }) a j

    abbrev pub app_uses : List Profile → String → String → Bool
    app_uses profiles a j =
        any
          (λ (p : Profile).
            elem a p.app_names
            && S.contains valid a
            && members S L (lookup p.name profile_to_clusters) j)
          profiles

    abbrev pub apps_after : Map S.Set → List Profile → Map S.Set
    apps_after = foldl (λ m p. (round valid profile_to_clusters m p).1)

    -- After the loop, the set of an app holds the clusters of the profiles that name it.
    pub members-collect :
        (profiles : List Profile) (m : Map S.Set) (a j : String)
        → members S L (lookup a (apps_after m profiles)) j
          ≡ (members S L (lookup a m) j || app_uses profiles a j)
    members-collect [] m a j = ground arith
    members-collect (p ∷ profiles) m a j = ground (
      arith,
      members-collect profiles (round valid profile_to_clusters m p).1 a j,
      members-reconcile_profile m p a j,
    )

    -- The profiles as the loop leaves them, in the order that they had.
    pub written-Checks :
        (m : Map S.Set) (profiles : List Profile)
        → Related
            (Checks (S.contains valid))
            profiles
            (written (round valid profile_to_clusters) m profiles)
    written-Checks m [] = tt
    written-Checks m (p ∷ profiles) = (
      reconcile_profile-Checks m p,
      written-Checks (round valid profile_to_clusters m p).1 profiles,
    )
