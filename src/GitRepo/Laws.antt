-- ===== src/GitRepo/Laws.antt =====
-- What the aliases give after a registration and after its removal.
use arlon.Prelude.{
  String, ◌≡◌, refl, sym, ◌∙◌, ap, Bool, true, false, not, ◌&&◌, Option, some, List, [], ◌∷◌, ◌++◌,
  arith, ◌==◌, string_eq, if◌then◌else◌, Bool-cases, Option-cases, inl, inr,
}
use arlon.Go.Exec.{Result, ok, continue-eq-ok, wrapped-eq-ok, wrapped, ◌>>=◌}
use arlon.GitRepo.External.{RepoCtx, RepoCtxCfg, Api}
use arlon.GitRepo.{
  alias_exists, find_repo, get_alias, url_of, remove_repo, with_repo, without_repo, load_repo_cfg,
  get_repo_url, store, add_repo, check_alias, register, remove_alias, unregister,
}

pub find_repo-append :
    (other : String) (r : RepoCtx) (repos : List RepoCtx)
    → alias_exists repos r.alias ≡ false
    → find_repo other (repos ++ r ∷ [])
      ≡ (if other == r.alias then some r else find_repo other repos)
unfolding find_repo alias_exists
find_repo-append other r [] h = ground arith
find_repo-append other r (x ∷ repos) h = ground (arith, find_repo-append other r repos)

get_alias-with_repo :
    (other : String) (r : RepoCtx) (cfg : RepoCtxCfg)
    → alias_exists cfg.repos r.alias ≡ false
    → get_alias other (with_repo r cfg) ≡ (if other == r.alias then some r else get_alias other cfg)
unfolding get_alias
get_alias-with_repo other r cfg h = ground (arith, find_repo-append other r cfg.repos h)

pub find_repo-remove_repo :
    (alias other : String) (repos others : List RepoCtx)
    → (other == alias) ≡ false
    → remove_repo alias repos ≡ some others
    → find_repo other others ≡ find_repo other repos
unfolding find_repo remove_repo
find_repo-remove_repo alias other [] others h e = absurd (ground arith)
find_repo-remove_repo alias other (r ∷ repos) others h e =
    elim (Option-cases (remove_repo alias repos)) [
      | inl n ↦ ground (arith, n)
      | inr (rest, s) ↦ ground (arith, s, find_repo-remove_repo alias other repos rest h s)
    ]

get_alias-without_repo :
    (alias other : String) (cfg : RepoCtxCfg) (others : List RepoCtx)
    → (other == alias) ≡ false
    → remove_repo alias cfg.repos ≡ some others
    → get_alias other (without_repo alias others cfg) ≡ get_alias other cfg
unfolding get_alias
get_alias-without_repo alias other cfg others h e =
    ground (arith, find_repo-remove_repo alias other cfg.repos others h e)

module _ (A : Api) where
  open A use {World}

  -- What the program relies on: a configuration that was serialized is read back, and a file that
  -- was cleared and written has the new contents.
  pub record IsLawful : Type 0 where
    pub round_trip :
        (cfg : RepoCtxCfg) (data_ : String)
        → A.marshal cfg ≡ ok data_
        → ((data_ == "") ≡ false) × (A.unmarshal data_ ≡ ok cfg)
    pub stored :
        (data_ : String) (w v w' : World)
        → A.truncate w ≡ (ok tt, v)
        → A.write data_ v ≡ (ok tt, w')
        → (A.open_file w' ≡ ok tt) × (A.read_all w' ≡ ok data_)

  get_repo_url_loaded :
      (cfg : RepoCtxCfg) (other : String) (w : World)
      → A.open_file w ≡ ok tt
      → load_repo_cfg A w ≡ ok cfg
      → get_repo_url A other w ≡ url_of (get_alias other cfg)
  unfolding get_repo_url
  get_repo_url_loaded cfg other w opened loaded = rw (get_repo_url, opened) (rw (loaded) refl)

  store-get_repo_url :
      IsLawful
      → (cfg : RepoCtxCfg) (other : String) (w w' : World) → store A cfg w ≡ (ok tt, w')
      → get_repo_url A other w' ≡ url_of (get_alias other cfg)
  unfolding store
  store-get_repo_url lawful cfg other w w' done =
      let (data_, marshalled) : (t : String) × (A.marshal cfg ≡ ok t) = ground arith in
      let context : String = "cannot overwrite config file: " in
      let (_, first, rest) =
        continue-eq-ok (wrapped context A.truncate w) (λ _. wrapped context (A.write data_))
          (rw (marshalled) at done) in
      let (opened, contents) =
        lawful.stored data_ w _ w' (wrapped-eq-ok context A.truncate w first)
          (wrapped-eq-ok context (A.write data_) _ rest) in
      let (filled, back) = lawful.round_trip cfg data_ marshalled in
      get_repo_url_loaded cfg other w' opened (ground arith)

  -- What was stored is what is loaded next.
  pub store-load_repo_cfg :
      IsLawful
      → (cfg : RepoCtxCfg) (w w' : World) → store A cfg w ≡ (ok tt, w')
      → load_repo_cfg A w' ≡ ok cfg
  unfolding store
  store-load_repo_cfg lawful cfg w w' done =
      let (data_, marshalled) : (t : String) × (A.marshal cfg ≡ ok t) = ground arith in
      let context : String = "cannot overwrite config file: " in
      let (_, first, rest) =
        continue-eq-ok (wrapped context A.truncate w) (λ _. wrapped context (A.write data_))
          (rw (marshalled) at done) in
      let (_, contents) =
        lawful.stored data_ w _ w' (wrapped-eq-ok context A.truncate w first)
          (wrapped-eq-ok context (A.write data_) _ rest) in
      let (filled, back) = lawful.round_trip cfg data_ marshalled in
      rw (load_repo_cfg, contents, filled, back) refl

  url_of-choice :
      (b : Bool) (r : RepoCtx) (o : Option RepoCtx)
      → url_of (if b then some r else o) ≡ (if b then ok r.url else url_of o)
  url_of-choice true r o = refl
  url_of-choice false r o = refl

  abbrev Resolves : String → String → World → World → Type 0
  Resolves alias created w w' =
      (other : String)
      → get_repo_url A other w' ≡ (if other == alias then ok created else get_repo_url A other w)

  with_repo-get_repo_url :
      IsLawful
      → (r : RepoCtx) (cfg : RepoCtxCfg) (w v w' : World) → A.open_file w ≡ ok tt
      → load_repo_cfg A w ≡ ok cfg
      → alias_exists cfg.repos r.alias ≡ false
      → store A (with_repo r cfg) v ≡ (ok tt, w')
      → Resolves r.alias r.url w w'
  with_repo-get_repo_url lawful r cfg w v w' opened loaded fresh kept other =
      store-get_repo_url lawful (with_repo r cfg) other v w' kept
      ∙ ap url_of (get_alias-with_repo other r cfg fresh)
      ∙ url_of-choice (other == r.alias) r (get_alias other cfg)
      ∙ ap (λ (x : Result String). if other == r.alias then ok r.url else x)
          (sym (get_repo_url_loaded cfg other w opened loaded))

  add_repo-get_repo_url :
      IsLawful
      → (url user secret alias : String) (cfg : RepoCtxCfg) (w w' : World) → A.open_file w ≡ ok tt
      → load_repo_cfg A w ≡ ok cfg
      → alias_exists cfg.repos alias ≡ false
      → add_repo A url user secret alias cfg w ≡ (ok tt, w')
      → (created : String) × ((v : World) × ((A.create_repository url user secret v).0 ≡ ok created)
          × Resolves alias created w w')
  unfolding add_repo
  add_repo-get_repo_url lawful url user secret alias cfg w w' opened loaded fresh done =
      let (_, valid, more) =
        continue-eq-ok (A.validate_access url user secret w)
          (λ _. A.create_repository url user secret >>= λ created.
            store A (with_repo (record { url = created; alias = alias }) cfg))
          done in
      let (created, made, kept) =
        continue-eq-ok (A.create_repository url user secret _)
          (λ created. store A (with_repo (record { url = created; alias = alias }) cfg)) more in
      (
        created,
        (
          _,
          ap (λ (x : Result String × World). x.0) made,
          with_repo-get_repo_url lawful (record { url = created; alias = alias }) cfg w _ w' opened
              loaded fresh kept,
        ),
      )

  -- The call behind the question for a password.
  pub asked :
      (url user password alias : String) (cfg : RepoCtxCfg) (w w' : World)
      → load_repo_cfg A w ≡ ok cfg
      → alias_exists cfg.repos alias ≡ false
      → register A url user password alias w ≡ (ok tt, w')
      → (A.open_file w ≡ ok tt)
        × ((secret : String) × (add_repo A url user secret alias cfg w ≡ (ok tt, w')))
  unfolding register check_alias
  asked url user password alias cfg w w' loaded fresh done = (
    ground arith,
    elim (Bool-cases (not (user == "") && password == "")) [
      | inl c ↦
          let (t, e) : (t : String) × (A.prompt_password w ≡ ok t) = ground (arith, c) in
          (t, ground (arith, c, e))
      | inr c ↦ (password, ground (arith, c))
    ],
  )

  -- After a registration that ends well, of an alias that the file does not have, the alias gives
  -- the URL that Argo CD gave to the repository, and every other alias gives what it gave before,
  -- the default too. What is written to the file is read back.
  pub register-get_repo_url :
      IsLawful
      → (url user password alias : String) (cfg : RepoCtxCfg) (w w' : World)
      → load_repo_cfg A w ≡ ok cfg
      → alias_exists cfg.repos alias ≡ false
      → register A url user password alias w ≡ (ok tt, w')
      → (secret : String) × ((created : String) × ((v : World) × ((A.create_repository url user
                secret v).0
              ≡ ok created)
            × ((other : String)
                → get_repo_url A other w'
                  ≡ (if other == alias then ok created else get_repo_url A other w))))
  register-get_repo_url lawful url user password alias cfg w w' loaded fresh done =
      let (opened, (secret, later)) = asked url user password alias cfg w w' loaded fresh done in
      (
        secret,
        add_repo-get_repo_url lawful url user secret alias cfg w w' opened loaded fresh later,
      )

  remove_alias-get_repo_url :
      IsLawful
      → (alias other : String) (cfg : RepoCtxCfg) (repos : List RepoCtx) (w w' : World)
      → cfg.repos ≡ repos
      → A.open_file w ≡ ok tt
      → load_repo_cfg A w ≡ ok cfg
      → (other == alias) ≡ false
      → remove_alias A alias cfg repos w ≡ (ok tt, w')
      → get_repo_url A other w' ≡ get_repo_url A other w
  unfolding remove_alias
  remove_alias-get_repo_url lawful alias other cfg [] w w' same opened loaded apart done =
      let stays : w ≡ w' = ground arith in ap (get_repo_url A other) (sym stays)
  remove_alias-get_repo_url lawful alias other cfg (r ∷ repos) w w' same opened loaded apart done =
      elim (Option-cases (remove_repo alias (r ∷ repos))) [
        | inl n ↦ absurd (ground (arith, n, done))
        | inr (others, s) ↦
            store-get_repo_url lawful (without_repo alias others cfg) other w w'
              (rw (remove_alias, s) at done)
            ∙ ap url_of (
                get_alias-without_repo alias other cfg others apart
                  (ap (remove_repo alias) same ∙ s))
            ∙ sym (get_repo_url_loaded cfg other w opened loaded)
      ]

  -- After a removal that ends well, of an alias that the file has, every other alias gives what it
  -- gave before. What is written to the file is read back.
  pub unregister-get_repo_url :
      IsLawful
      → (alias other : String) (cfg : RepoCtxCfg) (w w' : World) → load_repo_cfg A w ≡ ok cfg
      → (other == alias) ≡ false
      → unregister A alias w ≡ (ok tt, w')
      → get_repo_url A other w' ≡ get_repo_url A other w
  unfolding unregister
  unregister-get_repo_url lawful alias other cfg w w' loaded apart done =
      let opened : A.open_file w ≡ ok tt = ground arith in
      remove_alias-get_repo_url lawful alias other cfg cfg.repos w w' refl opened loaded apart
        (ground arith)
