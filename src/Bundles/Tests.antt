-- ===== src/Bundles/Tests.antt =====
-- Bundles in a namespace that holds at most one secret, and a file system of one file.
use arlon.Prelude.{
  String, ◌≡◌, ◌⊎◌, refl, ap, inl, inr, true, Option, none, some, [], ◌∷◌, arith, ◌==◌, ==-refl,
  string_eq, if◌then◌else◌, Bool-cases,
}
use mathlib.Core.Path.{subst}
use arlon.Go.Exec.{Result, ok, err, ok_injective}
use arlon.Go.Map.{insert, lookup}
use arlon.Bundles.{
  Secret, Secrets, Source, static_secret, is_valid_k8s_name, check_name, check_absent, secret_of,
  create, assign, edit, edited_data, edited, update, get_bundles_from_profile,
}
use arlon.Bundles.Laws.{
  Stores, ReadsByName, static_bundle, dynamic_bundle, create-get_bundles_from_profile,
}
use arlon.Bundles.Updates.{Edited, update-Edited}

abbrev found : String → Option Secret → Result Secret
found key none = err "not found"
found key (some secr) = if secr.name == key then ok secr else err "not found"

abbrev api : Secrets
api = record {
  World = Option Secret;
  get = found;
  list = λ w. elim w [ none ↦ ok [] | some secr ↦ ok (secr ∷ []) ];
  create = λ secr w. (ok tt, some secr);
  update = λ secr w. (ok tt, some secr);
  delete = λ key w. (ok tt, none);
  is_not_found = λ e. e == "not found";
  read_file = λ file w. if file == "guestbook.yaml" then ok "kind: Pod" else err "no such file";
  matches_rfc1123 = λ name. true;
}

abbrev source : Source
source = record {
  from_file = "guestbook.yaml";
  repo_url = "";
  repo_path = "";
  repo_revision = "";
  src_type = "";
  description = "a guestbook";
  tags = "test";
}

found_lem : (secr : Secret) → found secr.name (some secr) ≡ ok secr
found_lem secr = rw (==-refl secr.name) refl

stored_always : Stores api (λ secr w. (ok tt, some secr))
stored_always secr w w' h =
    subst (λ v. api.get secr.name v ≡ ok secr)
      (ap (λ (r : Result (Unit {0}) × Option Secret). r.1) h) (found_lem secr)

found_by_name : ReadsByName api
found_by_name name secr none h = absurd (ground (arith, h))
found_by_name name secr (some s) h = elim (Bool-cases (s.name == name)) [
  | inr e ↦ absurd (let k = rw (e) at h in ground (arith, k))
  | inl e ↦
      let same = ok_injective (rw (e) at h) in
      subst (λ (x : Secret). x.name ≡ name) same (ground (arith, e))
]

abbrev guestbook : Secret
guestbook = record {
  name = "guestbook";
  labels =
      ("managed-by", "arlon") ∷ ("arlon-type", "config-bundle") ∷ ("bundle-type", "static") ∷ [];
  annotations = [];
  contents = ("description", "a guestbook") ∷ ("tags", "test") ∷ ("data", "kind: Pod") ∷ [];
}

created : create api "guestbook" source none ≡ (ok tt, some guestbook)
unfolding create check_name is_valid_k8s_name check_absent secret_of static_secret insert lookup
    string_eq
created = refl

create-get_bundles_from_profile_example :
    (check_name api "guestbook" ≡ ok tt)
    × (check_absent api "guestbook" none ≡ ok tt)
    × (((c : String) × (api.read_file "guestbook.yaml" none ≡ ok c)
          × ◌≡◌ {A = String} "" ""
          × (get_bundles_from_profile api ("guestbook" ∷ []) (some guestbook)
              ≡ ok (static_bundle "guestbook" c ∷ [])))
        ⊎ (◌≡◌ {A = String} "guestbook.yaml" ""
            × (get_bundles_from_profile api ("guestbook" ∷ []) (some guestbook)
                ≡ ok (dynamic_bundle "guestbook" source ∷ []))))
create-get_bundles_from_profile_example =
    create-get_bundles_from_profile api "guestbook" source none (some guestbook) stored_always
      created

abbrev retagged : Secret
retagged = record guestbook {
  contents = ("description", "a guestbook") ∷ ("tags", "prod") ∷ ("data", "kind: Pod") ∷ [];
}

updated : update api "guestbook" "" "" "" "" "prod" (some guestbook) ≡ (ok tt, some retagged)
unfolding update check_name is_valid_k8s_name edited edited_data edit assign insert lookup string_eq
updated = refl

present_guestbook : api.get "guestbook" (some guestbook) ≡ ok guestbook
unfolding string_eq
present_guestbook = refl

update-Edited_example :
    (new : Secret) × (api.get "guestbook" (some retagged) ≡ ok new)
    × Edited api (some guestbook) "" "" "prod" guestbook new
update-Edited_example =
    update-Edited api "guestbook" "" "" "" "" "prod" guestbook (some guestbook) (some retagged)
      stored_always found_by_name present_guestbook updated

-- A static bundle keeps its kind.
no_repo :
    update api "guestbook" "" "https://git" "" "" "" (some guestbook)
    ≡ (err "cannot specify repo URL or path for an existing static bundle", some guestbook)
unfolding update check_name is_valid_k8s_name edited edited_data edit assign insert lookup string_eq
no_repo = refl
