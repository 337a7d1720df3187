-- ===== src/AppProfile/Memory.antt =====
-- An API of the kind that the reconciliation is given, kept in four lists, and a decoder of the
-- JSON texts that the program writes.
use Prim.Native.Char.{Char, code}
use Prim.Native.String.append
use arlon.Prelude.{
  String, ◌<>◌, ◌≡◌, refl, ◌∙◌, ap, true, false, Option, none, some, List, [], ◌∷◌, ◌++◌, map, elem,
  arith, eqb, ◌==◌, string_eq, if◌then◌else◌,
}
use arlon.Go.Exec.{Result, ok, err}
use arlon.Argo.{ArgoCluster, Application, AppSet}
use arlon.AppProfile.External.{Json, text, Profile, Api}
use arlon.AppProfile.Apps.{is_plain, Decodes}
use arlon.AppProfile.Everything.{IsLawful}

-- Text behind a prefix.
strip : String → String → Option String
strip String.[] s = some s
strip (String.◌∷◌ c p) String.[] = none
strip (String.◌∷◌ c p) (String.◌∷◌ b s) =
    let rest = strip p s in if eqb (code c) (code b) then rest else none

strip-append : (p s : String) → strip p (p <> s) ≡ some s
unfolding strip
strip-append String.[] s = ap some (append.nil s)
strip-append (String.◌∷◌ c p) s = rw (append.cons c p s) (ground (arith, strip-append p s))

-- The text before the first quote, and the text behind it.
abbrev push : Char → String × String → String × String
push c (a, b) = (String.◌∷◌ c a, b)

until_quote : String → String × String
until_quote String.[] = ("", "")
until_quote (String.◌∷◌ c s) =
    let rest = until_quote s in if eqb (code c) 34 then ("", s) else push c rest

until_quote-append :
    (n s : String)
    → is_plain n ≡ true
    → until_quote (n <> s) ≡ (n <> (until_quote s).0, (until_quote s).1)
unfolding until_quote is_plain
until_quote-append String.[] s h = rw (append.nil s, append.nil (until_quote s).0)
until_quote-append (String.◌∷◌ c n) s h =
    rw (append.cons c n s, append.cons c n (until_quote s).0)
      (ground (arith, until_quote-append n s (ground arith)))

abbrev object : String → String × String → Result (List (String × Json))
object clust_name (server, rest) =
    if rest == "}"
    then ok (("cluster_name", text clust_name) ∷ ("cluster_server", text server) ∷ [])
    else err "unexpected text"

abbrev second : String × String → Result (List (String × Json))
second (clust_name, rest) = elim (strip ", \"cluster_server\":\"" rest) [
  | none ↦ err "unexpected text"
  | some s ↦ object clust_name (until_quote s)
]

-- Objects with the two keys that the program writes, in its spelling.
unfoldable pub unmarshal : String → Result (List (String × Json))
unfolding strip until_quote
unmarshal raw = elim (strip "{\"cluster_name\":\"" raw) [
  | none ↦ err "unexpected text"
  | some s ↦ second (until_quote s)
]

append-empty : (s : String) → (s <> "") ≡ s
append-empty String.[] = append.nil ""
append-empty (String.◌∷◌ c s) = append.cons c s "" ∙ ap (λ t. String.◌∷◌ c t) (append-empty s)

-- reading a plain text that a quote ends
quoted :
    (n p t : String) → is_plain n ≡ true → until_quote (n <> (String.◌∷◌ "\"" p <> t)) ≡ (n, p <> t)
unfolding until_quote
quoted n p t h =
    rw (until_quote-append n (String.◌∷◌ "\"" p <> t) h, append.cons "\"" p t)
      (rw append-empty refl)

pub unmarshal-Decodes : Decodes unmarshal
unfolding unmarshal string_eq
unmarshal-Decodes = record {
  element = λ n v hn hv.
      let tail = v <> "\"}" in
      let first = quoted n ", \"cluster_server\":\"" tail hn in
      rw
        (
          unmarshal,
          strip-append "{\"cluster_name\":\"" (n <> ("\", \"cluster_server\":\"" <> tail)),
          first,
          second,
          strip-append ", \"cluster_server\":\"" tail,
          quoted v "}" "" hv,
        )
        (rw first);
}

-- The resources that the API serves.
pub record Store : Type 0 where
  pub clusters : List ArgoCluster
  pub arlon : List Application
  pub apps : List AppSet
  pub profiles : List Profile

-- The first resource of the name is replaced; one of no known name is lost.
unfoldable pub replace : {X : Type 0} → (X → String) → X → List X → List X
replace name new [] = []
replace name new (x ∷ xs) =
    let rest = replace name new xs in if name x == name new then new ∷ xs else x ∷ rest

replace-append :
    {X : Type 0} (name : X → String) (pre post : List X) (old new : X)
    → name new ≡ name old
    → elem (name old) (map name pre) ≡ false
    → replace name new (pre ++ old ∷ post) ≡ pre ++ new ∷ post
unfolding replace
replace-append name [] post old new same fresh = ground (arith, same)
replace-append name (x ∷ pre) post old new same fresh =
    ground (arith, same, replace-append name pre post old new same (ground (arith, fresh)))

abbrev pub memory_api : Api
memory_api = record {
  World = Store;
  new_cluster_client = λ _. ok tt;
  list_clusters = λ w. ok w.clusters;
  update_cluster = λ c w. (ok tt, record w { clusters = replace (λ c. c.name) c w.clusters });
  new_application_client = λ _. ok tt;
  list_applications = λ _ w. ok w.arlon;
  new_requirement = λ _. ok tt;
  list_app_sets = λ w. ok w.apps;
  update_app_set = λ a w. (ok tt, record w { apps = replace (λ a. a.name) a w.apps });
  list_profiles = λ w. ok w.profiles;
  update_profile_status =
      λ p w. (ok tt, record w { profiles = replace (λ p. p.name) p w.profiles });
  unmarshal = unmarshal;
}

pub memory_api-IsLawful : IsLawful memory_api
memory_api-IsLawful = record {
  replaces_cluster = λ pre post old new w w' listed same fresh done. ground (
    arith,
    listed,
    done,
    replace-append (λ (x : ArgoCluster). x.name) pre post old new same fresh,
  );
  replaces_profile = λ pre post old new w w' listed same fresh done.
      ground
        (arith, listed, done, replace-append (λ (x : Profile). x.name) pre post old new same fresh);
  replaces_app = λ pre post old new w w' listed same fresh done.
      ground
        (arith, listed, done, replace-append (λ (x : AppSet). x.name) pre post old new same fresh);
  keeps_cluster = λ c w. ((refl, refl, refl, refl), refl, refl);
  keeps_profile = λ p w. ((refl, refl, refl, refl), refl, refl);
  keeps_app = λ a w. ((refl, refl, refl, refl), refl, refl);
}
