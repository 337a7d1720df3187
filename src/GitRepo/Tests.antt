-- ===== src/GitRepo/Tests.antt =====
-- The commands over a file in memory, with a JSON stand-in that writes configurations of at most one
-- repository, of alias main.
use Prim.Native.Char.{Char, code}
use arlon.Prelude.{
  String, ◌≡◌, refl, sym, ap, Bool, true, false, ◌&&◌, List, [], ◌∷◌, arith, eqb, ◌==◌, string_eq,
  if◌then◌else◌,
}
use arlon.Prelude.{Bool-cases, inl, inr}
use arlon.Go.Exec.{Result, ok, err}
use arlon.GitRepo.External.{RepoCtx, RepoCtxCfg, Api}
use arlon.GitRepo.{
  find_repo, no_ctx, alias_exists, remove_repo, load_repo_cfg, get_repo_url, store, add_repo,
  check_alias, register, remove_alias, unregister,
}
use arlon.GitRepo.Aliases.{
  HoldsConsistent, Commands, none_yet, registered, unregistered, Commands-HoldsConsistent,
}
use arlon.GitRepo.Laws.{IsLawful, register-get_repo_url, unregister-get_repo_url}

write_repos : List RepoCtx → Result String
write_repos [] = ok "-"
write_repos (r ∷ []) = if r.alias == "main" then ok (String.◌∷◌ "#" r.url) else err "alias"
write_repos (r ∷ s ∷ repos) = err "too many"

marshal : RepoCtxCfg → Result String
unfolding write_repos
marshal cfg =
    if cfg.default.url == "" && cfg.default.alias == ""
    then write_repos cfg.repos
    else err "default"

unmarshal : String → Result RepoCtxCfg
unmarshal String.[] = err "empty"
unmarshal (String.◌∷◌ c s) =
    if eqb (code c) 35
    then ok (record { default = no_ctx; repos = (record { url = s; alias = "main" }) ∷ [] })
    else ok (record { default = no_ctx; repos = [] })

abbrev api : Api
api = record {
  World = String;
  open_file = λ _. ok tt;
  read_all = λ w. ok w;
  truncate = λ _. (ok tt, "");
  write = λ text _. (ok tt, text);
  unmarshal = unmarshal;
  marshal = marshal;
  prompt_password = λ _. ok "secret";
  validate_access = λ _ _ _ w. (ok tt, w);
  create_repository = λ url _ _ w. (ok url, w);
}

has_text : String → Bool
has_text String.[] = false
has_text (String.◌∷◌ c s) = true

same_text : (s t : String) → (s == t) ≡ true → s ≡ t
same_text s t e = ground arith

filled : (c : Char) (s : String) → (String.◌∷◌ c s == "") ≡ false
unfolding has_text
filled c s = elim (Bool-cases (String.◌∷◌ c s == "")) [
  | inl e ↦ absurd (let p = ap has_text (same_text (String.◌∷◌ c s) "" e) in ground arith)
  | inr e ↦ e
]

main_only : (r : RepoCtx) (text : String) → write_repos (r ∷ []) ≡ ok text → r.alias ≡ "main"
unfolding write_repos
main_only r text e = ground arith

text_only :
    (r : RepoCtx) (text : String) → write_repos (r ∷ []) ≡ ok text → String.◌∷◌ "#" r.url ≡ text
unfolding write_repos
text_only r text e = ground arith

read_back :
    (url alias : String) (repos : List RepoCtx) (text : String)
    → url ≡ ""
    → alias ≡ ""
    → write_repos repos ≡ ok text
    → ((text == "") ≡ false)
      × (unmarshal text
          ≡ ok (record { default = record { url = url; alias = alias }; repos = repos }))
unfolding write_repos unmarshal string_eq
read_back url alias [] text u a e =
    let same : "-" ≡ text = ground arith in rw⁻¹ same (rw (u, a) (refl, refl))
read_back url alias (r ∷ []) text u a e =
    let al : r.alias ≡ "main" = main_only r text e in
    let same : String.◌∷◌ "#" r.url ≡ text = text_only r text e in
    rw⁻¹ same (rw (u, a, al) (filled "#" r.url, refl))
read_back url alias (r ∷ s ∷ repos) text u a e = absurd (ground arith)

blank :
    (cfg : RepoCtxCfg) (text : String)
    → marshal cfg ≡ ok text
    → (cfg.default.url ≡ "") × (cfg.default.alias ≡ "") × (write_repos cfg.repos ≡ ok text)
unfolding marshal
blank cfg text e = ground arith

api_IsLawful : IsLawful api
api_IsLawful = record {
  round_trip = λ cfg text e.
      let (u, a, written) = blank cfg text e in
      read_back cfg.default.url cfg.default.alias cfg.repos text u a written;
  stored = λ text w v w' cleared written.
      (refl, let same : text ≡ w' = ground (arith, written) in ap (λ t. ok t) (sym same));
}

abbrev none_cfg : RepoCtxCfg
none_cfg = record { default = no_ctx; repos = [] }

abbrev main_cfg : RepoCtxCfg
main_cfg = record {
  default = no_ctx;
  repos = (record { url = "https://git"; alias = "main" }) ∷ [];
}

run_register : register api "https://git" "user" "pw" "main" "" ≡ (ok tt, "#https://git")
unfolding register check_alias add_repo store marshal write_repos alias_exists string_eq
run_register = refl

run_unregister : unregister api "main" "#https://git" ≡ (ok tt, "-")
unfolding unregister remove_alias remove_repo store marshal unmarshal write_repos string_eq
run_unregister = refl

none_loaded : load_repo_cfg api "" ≡ ok none_cfg
unfolding string_eq
none_loaded = refl

main_loaded : load_repo_cfg api "#https://git" ≡ ok main_cfg
unfolding unmarshal string_eq
main_loaded = refl

other_alias : ◌==◌ {A = String} "default" "main" ≡ false
unfolding string_eq
other_alias = refl

main_free : alias_exists [] "main" ≡ false
unfolding alias_exists
main_free = refl

register-get_repo_url_example :
    (secret : String) × ((created : String) × ((v : String) × ((api.create_repository "https://git"
            "user" secret v).0
          ≡ ok created)
        × ((other : String)
            → get_repo_url api other "#https://git"
              ≡ (if other == "main" then ok created else get_repo_url api other ""))))
register-get_repo_url_example =
    register-get_repo_url api api_IsLawful "https://git" "user" "pw" "main" none_cfg ""
      "#https://git" none_loaded main_free run_register

unregister-get_repo_url_example :
    get_repo_url api "default" "-" ≡ get_repo_url api "default" "#https://git"
unregister-get_repo_url_example =
    unregister-get_repo_url api api_IsLawful "main" "default" main_cfg "#https://git" "-"
      main_loaded other_alias run_unregister

main_Commands : Commands api "" "-"
main_Commands =
    unregistered "main" (registered "https://git" "user" "pw" "main" none_yet run_register)
      run_unregister

none_HoldsConsistent : HoldsConsistent api ""
unfolding string_eq find_repo
none_HoldsConsistent = (none_cfg, refl, (refl, refl))

Commands-HoldsConsistent_example : HoldsConsistent api "-"
Commands-HoldsConsistent_example =
    Commands-HoldsConsistent api api_IsLawful "" "-" none_HoldsConsistent main_Commands
