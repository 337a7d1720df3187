-- ===== src/Bundles/Updates.antt =====
-- What an update of a bundle leaves as it was, and what it replaces.
use arlon.Prelude.{
  String, ◌≡◌, refl, ◌∙◌, sym, ap, inl, inr, Bool, true, false, not, ◌||◌, some, arith, [], ◌∷◌,
  ◌⊎◌, ◌&&◌, ◌==◌, ==-refl, string_eq, if◌then◌else◌, Bool-cases,
}
use mathlib.Core.Path.{subst}
use arlon.Go.Exec.{Result, ok, pure, Result-cases, ok_injective, wrapped, wrapped-eq-ok}
use arlon.Go.Map.{StringMap, insert, lookup, or_zero, read, lookup-insert}
use arlon.Bundles.{Secret, Secrets, assign, edit, check_name, edited_data, edited, update}
use arlon.Bundles.Laws.{Stores, ReadsByName}

-- A text that is given replaces the old one.
abbrev pub text_or : String → String → String
text_or given kept = if given == "" then kept else given

-- What `edit` makes of a secret where it does not panic.
abbrev put : String → String → Secret × Bool → Secret × Bool
put key text (secr, dirty) =
    if not (text == "") && not (text == read secr.contents key)
    then (record secr { contents = insert key text secr.contents }, true)
    else (secr, dirty)

entries_cases :
    (m : StringMap) → (m ≡ []) ⊎ ((e : String × String) × ((es : StringMap) × (m ≡ e ∷ es)))
entries_cases [] = inl refl
entries_cases (e ∷ es) = inr (e, (es, refl))

assign_lem :
    (key text : String) (secr new : Secret)
    → assign key text secr ≡ ok new
    → record secr { contents = insert key text secr.contents } ≡ new
unfolding assign
assign_lem key text secr new h = elim (entries_cases secr.contents) [
  | inl e ↦ absurd (let k = rw (assign, e) at h in ground (arith, k))
  | inr (x, (xs, e)) ↦ ok_injective (rw (assign, e) at h)
]

edit-put : (key text : String) (p q : Secret × Bool) → edit key text p ≡ ok q → put key text p ≡ q
unfolding edit
edit-put key text (secr, d) q h =
    elim (Bool-cases (not (text == "") && not (text == read secr.contents key))) [
      | inr e ↦ rw (e) (ok_injective (rw (edit, e) at h))
      | inl e ↦ elim (Result-cases (assign key text secr)) [
        | inr (_, f) ↦ absurd (let k = rw (edit, e, f) at h in ground (arith, k))
        | inl (new, f) ↦ rw (e) (
            ap (λ s. (s, true)) (assign_lem key text secr new f)
            ∙ ok_injective (rw (edit, e, f) at h))
      ]
    ]

put-read :
    (key text : String) (secr : Secret) (d : Bool)
    → read (put key text (secr, d)).0.contents key ≡ text_or text (read secr.contents key)
put-read key text secr d = ground (arith, lookup-insert key key text secr.contents, ==-refl key)

put-other :
    (key other text : String) (secr : Secret) (d : Bool)
    → (key == other) ≡ false
    → lookup other (put key text (secr, d)).0.contents ≡ lookup other secr.contents
put-other key other text secr d h = ground (arith, lookup-insert other key text secr.contents, h)

-- What `update` may not touch.
abbrev pub Keeps : Secret → Secret → Type 0
Keeps old new =
    (new.name ≡ old.name) × (new.labels ≡ old.labels) × (new.annotations ≡ old.annotations)

put-Keeps : (key text : String) (secr : Secret) (d : Bool) → Keeps secr (put key text (secr, d)).0
put-Keeps key text secr d = ground arith

put_clean :
    (key text : String) (secr : Secret)
    → (put key text (secr, false)).1 ≡ false
    → (put key text (secr, false)).0 ≡ secr
put_clean key text secr h = ground (arith, h)

abbrev texts : String → String → Secret → Secret × Bool
texts description tags secr = put "tags" tags (put "description" description (secr, false))

-- The secret that an update of `old` leaves: the texts that are given are replaced, and the data
-- by the contents of the file, if one is given.
abbrev pub Edited :
    (api : Secrets) → api.World → (from_file description tags : String) → Secret → Secret → Type 0
Edited api w from_file description tags old new =
    Keeps old new
    × (read new.contents "description" ≡ text_or description (read old.contents "description"))
    × (read new.contents "tags" ≡ text_or tags (read old.contents "tags"))
    × (if from_file == ""
        then lookup "data" new.contents ≡ lookup "data" old.contents
        else (c : String) × (api.read_file from_file w ≡ ok c)
          × (lookup "data" new.contents ≡ some c))

tags-description : ◌==◌ {A = String} "tags" "description" ≡ false
unfolding string_eq
tags-description = refl

texts-Keeps :
    (description tags : String) (secr : Secret) → Keeps secr (texts description tags secr).0
texts-Keeps description tags secr =
    let first = put "description" description (secr, false) in
    let (n, l, a) = put-Keeps "tags" tags first.0 first.1 in
    let (m, k, b) = put-Keeps "description" description secr false in (n ∙ m, l ∙ k, a ∙ b)

texts-description :
    (description tags : String) (secr : Secret)
    → read (texts description tags secr).0.contents "description"
      ≡ text_or description (read secr.contents "description")
texts-description description tags secr =
    let first = put "description" description (secr, false) in
    ap or_zero (put-other "tags" "description" tags first.0 first.1 tags-description)
    ∙ put-read "description" description secr false

texts-tags :
    (description tags : String) (secr : Secret)
    → read (texts description tags secr).0.contents "tags"
      ≡ text_or tags (read secr.contents "tags")
texts-tags description tags secr =
    let first = put "description" description (secr, false) in
    put-read "tags" tags first.0 first.1
    ∙ ap (λ o. text_or tags (or_zero o))
        (put-other "description" "tags" description secr false (unfold string_eq in refl))

texts-data :
    (description tags : String) (secr : Secret)
    → lookup "data" (texts description tags secr).0.contents ≡ lookup "data" secr.contents
texts-data description tags secr =
    let first = put "description" description (secr, false) in
    put-other "tags" "data" tags first.0 first.1 (unfold string_eq in refl)
    ∙ put-other "description" "data" description secr false (unfold string_eq in refl)

texts_clean :
    (description tags : String) (secr : Secret)
    → (texts description tags secr).1 ≡ false
    → (texts description tags secr).0 ≡ secr
texts_clean description tags secr h = ground (arith, h)

insert_data :
    (key other c : String) (m : StringMap)
    → (key == other) ≡ false
    → lookup other (insert key c m) ≡ lookup other m
insert_data key other c m h = ground (arith, lookup-insert other key c m, h)

data_inserted : (c : String) (m : StringMap) → lookup "data" (insert "data" c m) ≡ some c
data_inserted c m = rw (lookup-insert "data" "data" c m) (unfold string_eq in refl)

abbrev with_data : String → Secret → Secret
with_data c secr = record secr { contents = insert "data" c secr.contents }

read-with_data :
    (key c : String) (secr : Secret)
    → ("data" == key) ≡ false
    → read (with_data c secr).contents key ≡ read secr.contents key
read-with_data key c secr h = ap or_zero (insert_data "data" key c secr.contents h)

module _ (api : Secrets) (secr : Secret) (from_file description tags : String) (w : api.World) where
  -- What holds of an edited secret and of the mark that it is dirty.
  abbrev Outcome : Secret × Bool → Type 0
  Outcome p = Edited api w from_file description tags secr p.0 × (p.1 ≡ false → p.0 ≡ secr)

  without_file : (from_file == "") ≡ true → Outcome (texts description tags secr)
  without_file e = (
    (
      texts-Keeps description tags secr,
      texts-description description tags secr,
      texts-tags description tags secr,
      rw (e) (texts-data description tags secr),
    ),
    texts_clean description tags secr,
  )

  with_file :
      (c : String)
      → (from_file == "") ≡ false
      → api.read_file from_file w ≡ ok c
      → Outcome (with_data c (texts description tags secr).0, true)
  with_file c e file =
      let t = (texts description tags secr).0 in
      (
        (
          texts-Keeps description tags secr,
          read-with_data "description" c t (unfold string_eq in refl)
              ∙ texts-description description tags secr,
          read-with_data "tags" c t (unfold string_eq in refl) ∙ texts-tags description tags secr,
          rw (e) (c, file, data_inserted c t.contents),
        ),
        λ wrong. absurd (ground (arith, wrong)),
      )

module _ (api : Secrets) where
  edited_data_lem :
      (secr new : Secret) (d : Bool) (t : Secret × Bool)
      (from_file repo_url repo_path description tags : String) (w : api.World)
      → texts description tags secr ≡ t
      → edited_data api from_file repo_url repo_path w t ≡ ok (new, d)
      → Edited api w from_file description tags secr new × (d ≡ false → new ≡ secr)
  unfolding edited_data
  edited_data_lem secr new d t from_file repo_url repo_path description tags w same h =
      elim (Bool-cases (from_file == "")) [
        | inl e ↦ elim (Bool-cases (not (repo_url == "") || not (repo_path == ""))) [
          | inl f ↦ absurd (let k = rw (edited_data, e, f) at h in ground (arith, k))
          | inr f ↦
              subst (λ (p : Secret × Bool). Outcome api secr from_file description tags w p)
                (same ∙ ok_injective (rw (edited_data, e, f) at h))
                (without_file api secr from_file description tags w e)
        ]
        | inr e ↦ elim (Bool-cases (repo_url == "")) [
          | inr f ↦ absurd (let k = rw (edited_data, e, f) at h in ground (arith, k))
          | inl f ↦ elim (Bool-cases (read t.0.labels "bundle-type" == "static")) [
            | inr g ↦ absurd (let k = rw (edited_data, e, f, g) at h in ground (arith, k))
            | inl g ↦ elim (Result-cases (api.read_file from_file w)) [
              | inr (_, c) ↦ absurd (let k = rw (edited_data, e, f, g, c) at h in ground (arith, k))
              | inl (contents, c) ↦ elim (Result-cases (assign "data" contents t.0)) [
                | inr (_, i) ↦
                    absurd (let k = rw (edited_data, e, f, g, c, i) at h in ground (arith, k))
                | inl (made, i) ↦
                    let last : with_data contents (texts description tags secr).0 ≡ made =
                      ap (λ (p : Secret × Bool). with_data contents p.0) same
                      ∙ assign_lem "data" contents t.0 made i in
                    subst (λ (p : Secret × Bool). Outcome api secr from_file description tags w p)
                      (ap (λ s. (s, true)) last
                        ∙ ok_injective (rw (edited_data, e, f, g, c, i) at h))
                      (with_file api secr from_file description tags w contents e c)
              ]
            ]
          ]
        ]
      ]

  edited_lem :
      (secr new : Secret) (d : Bool) (from_file repo_url repo_path description tags : String)
      (w : api.World)
      → edited api secr from_file repo_url repo_path description tags w ≡ ok (new, d)
      → Edited api w from_file description tags secr new × (d ≡ false → new ≡ secr)
  unfolding edited
  edited_lem secr new d from_file repo_url repo_path description tags w h =
      elim (Result-cases (edit "description" description (secr, false))) [
        | inr (_, e) ↦ absurd (let k = rw (edited, e) at h in ground (arith, k))
        | inl (p, e) ↦ elim (Result-cases (edit "tags" tags p)) [
          | inr (_, f) ↦ absurd (let k = rw (edited, e, f) at h in ground (arith, k))
          | inl (t, f) ↦
              edited_data_lem secr new d t from_file repo_url repo_path description tags w
                (ap (put "tags" tags) (edit-put "description" description (secr, false) p e)
                  ∙ edit-put "tags" tags p t f)
                (rw (edited, e, f) at h)
        ]
      ]

  -- The last step of `update`.
  written :
      (name : String) (secr new : Secret) (w w' : api.World) (d : Bool)
      → Stores api api.update
      → ReadsByName api
      → api.get name w ≡ ok secr
      → new.name ≡ secr.name
      → (d ≡ false → new ≡ secr)
      → (if not d then pure tt else wrapped "failed to update secret: " (api.update new)) w
        ≡ (ok tt, w')
      → api.get name w' ≡ ok new
  written name secr new w w' true stores by_name old same clean h =
      let found =
        stores new w w' (wrapped-eq-ok "failed to update secret: " (api.update new) w h) in
      subst (λ n. api.get n w' ≡ ok new) (same ∙ by_name name secr w old) found
  written name secr new w w' false stores by_name old same clean h =
      rw (ap (λ (r : Result (Unit {0}) × api.World). r.1) h) at old ∙ ap ok (sym (clean refl))

  -- When `update` succeeds on a secret that reads as `secr`, on an API whose updates are read back
  -- and which reads a secret by its name: the name now reads as the secret with the texts that are
  -- given replaced, the data replaced by the contents of the file if one is given, and the name,
  -- the labels and the annotations, with the reference to git, as they were.
  pub update-Edited :
      (name from_file repo_url repo_path description tags : String) (secr : Secret)
      (w w' : api.World)
      → Stores api api.update
      → ReadsByName api
      → api.get name w ≡ ok secr
      → update api name from_file repo_url repo_path description tags w ≡ (ok tt, w')
      → (new : Secret) × (api.get name w' ≡ ok new)
        × Edited api w from_file description tags secr new
  unfolding update
  update-Edited name from_file repo_url repo_path description tags secr w w' stores by_name old h =
      elim (Result-cases (check_name api name)) [
        | inr (_, e) ↦ absurd (let k = rw (update, e) at h in ground (arith, k))
        | inl (tt, e) ↦
            elim (Result-cases (edited api secr from_file repo_url repo_path description tags w)) [
              | inr (_, f) ↦ absurd (let k = rw (update, e, old, f) at h in ground (arith, k))
              | inl ((new, d), f) ↦
                  let (spec, clean) =
                    edited_lem secr new d from_file repo_url repo_path description tags w f in
                  (
                    new,
                    written name secr new w w' d stores by_name old spec.0.0 clean
                        (rw (update, e, old, f) at h),
                    spec,
                  )
            ]
      ]
