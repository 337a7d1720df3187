-- ===== src/AppProfile/Apps.antt =====
-- The loop over the apps: the JSON elements of an app's list generator are its clusters.
use Prim.Native.Char.{code}
use mathlib.Core.Option.{get_or}
use arlon.Prelude.{
  String, ◌≡◌, refl, sym, ◌∙◌, Bool, true, not, ◌&&◌, ◌||◌, Option, none, some, List, [], ◌∷◌, map,
  arith, leb, eqb, elem, All, ==-refl, string_eq, Bool-cases, Option-cases, inl, inr,
}
use arlon.Go.Exec.{Result, ok}
use arlon.Go.Map.{Map, StringMap, lookup, read}
use arlon.Go.Sets.{Sets, IsLawful}
use arlon.Argo.{Generator, AppSet}
use arlon.AppProfile.External.{Json, text}
use arlon.AppProfile.{
  or_new, read_pairs, read_elements, element_json, new_elements, set_elements, reconcile_generator,
  reconcile_app,
}
use arlon.AppProfile.Clusters.{members, contains-or_new}

-- Text that stands for itself in a JSON string: no quote, no backslash, no control character.
unfoldable pub is_plain : String → Bool
is_plain String.[] = true
is_plain (String.◌∷◌ c s) =
    let rest = is_plain s in
    leb 32 (code c) && not (eqb (code c) 34) && not (eqb (code c) 92) && rest

-- What the program relies on of the decoder: an element that it wrote for plain texts is read as an
-- object of the two texts.
pub record Decodes (unmarshal : String → Result (List (String × Json))) : Type 0 where
  pub element :
      (clust_name server : String)
      → is_plain clust_name ≡ true
      → is_plain server ≡ true
      → unmarshal (element_json clust_name server)
        ≡ ok (("cluster_name", text clust_name) ∷ ("cluster_server", text server) ∷ [])

-- The elements of an app whose generators are a single list.
abbrev pub list_of : List Generator → Option (List String)
list_of (gen ∷ []) = gen.elements
list_of _ = none

All-elem :
    {P : String → Type 0} (xs : List String) → ((a : String) → elem a xs ≡ true → P a) → All P xs
All-elem [] h = tt
All-elem (x ∷ xs) h =
    (h x (ground (arith, ==-refl x)), All-elem xs (λ a e. h a (ground (arith, e))))

module _ (S : Sets) (L : IsLawful S) (unmarshal : String → Result (List (String × Json))) where
  abbrev listed : List String → S.Set
  listed elems = read_elements S unmarshal elems S.empty

  -- The app deploys to the wanted clusters, if its generators are a single list. Any other app, and
  -- the rest of this one, is as it was.
  pub record Deploys (want : String → Bool) (app app' : AppSet) : Type 0 where
    pub name : app'.name ≡ app.name
    pub namespace : app'.namespace ≡ app.namespace
    pub labels : app'.labels ≡ app.labels
    pub unmanaged : list_of app.generators ≡ none → app' ≡ app
    pub managed :
        (elems : List String)
        → list_of app.generators ≡ some elems
        → (elems' : List String) × (list_of app'.generators ≡ some elems')
          × ((j : String) → S.contains (listed elems') j ≡ want j)

  abbrev PlainFor : StringMap → List String → Type 0
  PlainFor servers = All (λ j. (is_plain j ≡ true) × (is_plain (read servers j) ≡ true))

  read_pairs_of_own :
      (clust_name server : String) (s : S.Set)
      → read_pairs S unmarshal
          (("cluster_name", text clust_name) ∷ ("cluster_server", text server) ∷ [])
          s
        ≡ S.add s clust_name
  unfolding read_pairs string_eq
  read_pairs_of_own clust_name server s = refl

  read_new_elements :
      Decodes unmarshal
      → (servers : StringMap) (names : List String) (s : S.Set) (j : String)
      → PlainFor servers names
      → S.contains
          (read_elements S unmarshal (map (λ n. element_json n (read servers n)) names) s)
          j
        ≡ (S.contains s j || elem j names)
  unfolding read_elements
  read_new_elements d servers [] s j _ = ground arith
  read_new_elements d servers (n ∷ names) s j ((pn, ps), plain) = ground (
    arith,
    d.element n (read servers n) pn ps,
    read_pairs_of_own n (read servers n) s,
    read_new_elements d servers names (S.add s n) j plain,
    L.contains-add s n j,
  )

  -- The new elements decode to the set that they were written for.
  contains-listed :
      Decodes unmarshal
      → (servers : StringMap) (clusters : S.Set) (j : String)
      → PlainFor servers (S.to_slice clusters)
      → S.contains (listed (new_elements S servers clusters)) j ≡ S.contains clusters j
  contains-listed d servers clusters j plain = ground (
    arith,
    read_new_elements d servers (S.to_slice clusters) S.empty j plain,
    L.contains-empty j,
    L.elem-to_slice clusters j,
  )

  module _ (d : Decodes unmarshal) (servers : StringMap) (after : S.Set) where
    set_elements-managed :
        PlainFor servers (S.to_slice after)
        → (app : AppSet) (elems : List String) → list_of app.generators ≡ some elems
        → (elems' : List String) × (list_of
              (get_or (set_elements S unmarshal app elems servers after) app).generators
            ≡ some elems')
          × ((j : String) → S.contains (listed elems') j ≡ S.contains after j)
    unfolding set_elements
    set_elements-managed plain app elems own = elim (Bool-cases (S.equal after (listed elems))) [
      | inl e ↦ (elems, ground (arith, own), λ j. sym ((L.equal_iff after (listed elems)).0 e j))
      | inr e ↦
          (new_elements S servers after, ground arith, λ j. contains-listed d servers after j plain)
    ]

    module _ (want : String → Bool) (exact : (j : String) → S.contains after j ≡ want j)
        (plain : PlainFor servers (S.to_slice after)) where
      reconcile_generator-Deploys :
          (app : AppSet) (gens : List Generator)
          → app.generators ≡ gens
          → Deploys want app (get_or (reconcile_generator S unmarshal app gens servers after) app)
      unfolding reconcile_generator
      reconcile_generator-Deploys app (gen ∷ []) own = elim (Option-cases gen.elements) [
        | inl e ↦ record {
          name = ground (arith, e);
          namespace = ground (arith, e);
          labels = ground (arith, e);
          unmanaged = λ _. ground (arith, e);
          managed = λ elems h. absurd (ground (arith, own, e));
        }
        | inr (elems, e) ↦ record {
          name = unfold set_elements in ground (arith, e);
          namespace = unfold set_elements in ground (arith, e);
          labels = unfold set_elements in ground (arith, e);
          unmanaged = λ h. absurd (ground (arith, own, e));
          managed = λ _ _.
              let (elems', own', holds) =
                set_elements-managed plain app elems (ground (arith, own, e)) in
              (elems', ground (arith, e, own'), λ j. holds j ∙ exact j);
        }
      ]
      reconcile_generator-Deploys app _ own = record {
        name = refl;
        namespace = refl;
        labels = refl;
        unmanaged = λ _. refl;
        managed = λ elems h. absurd (ground (arith, own, h));
      }

  -- An app whose elements decode to the wanted clusters already.
  abbrev pub IsSettled : (String → Bool) → AppSet → Type 0
  IsSettled want app =
      (elems : List String)
      → list_of app.generators ≡ some elems
      → (j : String) → S.contains (listed elems) j ≡ want j

  pub Deploys-IsSettled :
      (want : String → Bool) (app app' : AppSet) → Deploys want app app' → IsSettled want app'
  Deploys-IsSettled want app app' dep elems own j = elim (Option-cases (list_of app.generators)) [
    | inl e ↦ absurd (ground (arith, dep.unmanaged e, own, e))
    | inr (old, e) ↦
        let (elems', own', holds) = dep.managed old e in
        let same : elems' ≡ elems = ground (arith, own, own') in rw same at (holds j)
  ]

  reconcile_generator-clean :
      (servers : StringMap) (after : S.Set) (want : String → Bool) (app : AppSet)
      (gens : List Generator)
      → ((j : String) → S.contains after j ≡ want j)
      → app.generators ≡ gens
      → IsSettled want app
      → reconcile_generator S unmarshal app gens servers after ≡ none
  unfolding reconcile_generator set_elements
  reconcile_generator-clean servers after want app (gen ∷ []) exact own settled =
      elim (Option-cases gen.elements) [
        | inl e ↦ ground (arith, e)
        | inr (elems, e) ↦
            let same : S.equal after (listed elems) ≡ true =
              (L.equal_iff after (listed elems)).1
                λ j. exact j ∙ sym (settled elems (ground (arith, own, e)) j) in
            ground (arith, e, same)
      ]
  reconcile_generator-clean servers after want app _ exact own settled = refl

  reconcile_generator-name :
      (app : AppSet) (gens : List Generator) (servers : StringMap) (after : S.Set)
      → (get_or (reconcile_generator S unmarshal app gens servers after) app).name ≡ app.name
  unfolding reconcile_generator set_elements
  reconcile_generator-name app (gen ∷ []) servers after = ground arith
  reconcile_generator-name app _ servers after = refl

  pub reconcile_app-name :
      (m : Map S.Set) (servers : StringMap) (app : AppSet)
      → (get_or (reconcile_app S unmarshal m servers app) app).name ≡ app.name
  unfolding reconcile_app
  reconcile_app-name m servers app =
      reconcile_generator-name app app.generators servers (or_new S (lookup app.name m))

  -- One round of the loop over the apps, given what the set of the app holds.
  pub reconcile_app-Deploys :
      Decodes unmarshal
      → (m : Map S.Set) (servers : StringMap) (want : String → Bool) (app : AppSet)
      → ((j : String) → members S L (lookup app.name m) j ≡ want j)
      → ((j : String) → want j ≡ true → (is_plain j ≡ true) × (is_plain (read servers j) ≡ true))
      → Deploys want app (get_or (reconcile_app S unmarshal m servers app) app)
  unfolding reconcile_app
  reconcile_app-Deploys d m servers want app exact plain =
      let after = or_new S (lookup app.name m) in
      let holds = λ (j : String). contains-or_new S L (lookup app.name m) j ∙ exact j in
      reconcile_generator-Deploys d servers after want holds
        (All-elem (S.to_slice after) λ j e. plain j (sym (L.elem-to_slice after j ∙ holds j) ∙ e))
        app app.generators refl

  pub reconcile_app-clean :
      (m : Map S.Set) (servers : StringMap) (want : String → Bool) (app : AppSet)
      → ((j : String) → members S L (lookup app.name m) j ≡ want j)
      → IsSettled want app
      → reconcile_app S unmarshal m servers app ≡ none
  unfolding reconcile_app
  reconcile_app-clean m servers want app exact settled =
      let after = or_new S (lookup app.name m) in
      reconcile_generator-clean servers after want app app.generators
        (λ j. contains-or_new S L (lookup app.name m) j ∙ exact j) refl settled
