-- ===== src/GitRepo/Aliases.antt =====
-- The invariant of the file of aliases.
use arlon.Prelude.{
  String, ◌≡◌, refl, ap, ◌∙◌, Bool, true, false, not, ◌&&◌, ◌||◌, Option, none, some, List, [], ◌∷◌,
  ◌++◌, arith, ◌==◌, string_eq, Bool-cases, Option-cases, inl, inr,
}
use mathlib.Core.Path.{subst}
use arlon.Go.Exec.{ok, continue-eq-ok, ◌>>=◌}
use arlon.GitRepo.External.{RepoCtx, RepoCtxCfg, Api}
use arlon.GitRepo.{
  load_repo_cfg, store, add_repo, check_alias, register, remove_alias, unregister, no_ctx,
  default_ctx, alias_exists, find_repo, remove_repo, with_repo, without_repo,
}
use arlon.GitRepo.Laws.{
  IsLawful, asked, store-load_repo_cfg, find_repo-append, find_repo-remove_repo,
}

abbrev are_distinct : List RepoCtx → Bool
are_distinct [] = true
are_distinct (r ∷ repos) = not (alias_exists repos r.alias) && are_distinct repos

abbrev or_no_ctx : Option RepoCtx → RepoCtx
or_no_ctx none = no_ctx
or_no_ctx (some r) = r

-- No alias is there twice, and the default is the repository of the alias default, where there is
-- one.
abbrev IsConsistent : RepoCtxCfg → Type 0
IsConsistent cfg =
    (are_distinct cfg.repos ≡ true) × (cfg.default ≡ or_no_ctx (find_repo default_ctx cfg.repos))

alias_exists-append :
    (alias : String) (r : RepoCtx) (repos : List RepoCtx)
    → alias_exists (repos ++ r ∷ []) alias ≡ (alias_exists repos alias || r.alias == alias)
unfolding alias_exists
alias_exists-append alias r [] = ground arith
alias_exists-append alias r (x ∷ repos) = ground (arith, alias_exists-append alias r repos)

are_distinct-append :
    (r : RepoCtx) (repos : List RepoCtx)
    → are_distinct repos ≡ true
    → alias_exists repos r.alias ≡ false
    → are_distinct (repos ++ r ∷ []) ≡ true
unfolding alias_exists
are_distinct-append r [] d h = ground arith
are_distinct-append r (x ∷ repos) d h =
    ground (arith, alias_exists-append x.alias r repos, are_distinct-append r repos)

alias_exists-remove_repo :
    (alias other : String) (repos others : List RepoCtx)
    → remove_repo alias repos ≡ some others
    → alias_exists repos other ≡ false
    → alias_exists others other ≡ false
unfolding alias_exists remove_repo
alias_exists-remove_repo alias other [] others e h = absurd (ground arith)
alias_exists-remove_repo alias other (r ∷ repos) others e h =
    elim (Option-cases (remove_repo alias repos)) [
      | inl n ↦ ground (arith, n)
      | inr (rest, s) ↦ ground (arith, s, alias_exists-remove_repo alias other repos rest s)
    ]

are_distinct-remove_repo :
    (alias : String) (repos others : List RepoCtx)
    → remove_repo alias repos ≡ some others
    → are_distinct repos ≡ true
    → (are_distinct others ≡ true) × (alias_exists others alias ≡ false)
unfolding alias_exists remove_repo
are_distinct-remove_repo alias [] others e d = absurd (ground arith)
are_distinct-remove_repo alias (r ∷ repos) others e d =
    elim (Option-cases (remove_repo alias repos)) [
      | inl n ↦ ground (arith, n)
      | inr (rest, s) ↦
          let fewer = alias_exists-remove_repo alias r.alias repos rest s in
          let later = are_distinct-remove_repo alias repos rest s in ground (arith, s, fewer, later)
    ]

find_repo-absent :
    (alias : String) (repos : List RepoCtx)
    → alias_exists repos alias ≡ false
    → find_repo alias repos ≡ none
unfolding alias_exists find_repo
find_repo-absent alias [] h = refl
find_repo-absent alias (r ∷ repos) h = ground (arith, find_repo-absent alias repos)

registered_default :
    (r : RepoCtx) (cfg : RepoCtxCfg)
    → alias_exists cfg.repos r.alias ≡ false
    → cfg.default ≡ or_no_ctx (find_repo default_ctx cfg.repos)
    → (with_repo r cfg).default ≡ or_no_ctx (find_repo default_ctx (cfg.repos ++ r ∷ []))
registered_default r cfg fresh same = elim (Bool-cases (r.alias == default_ctx)) [
  | inl f ↦
      let g : (default_ctx == r.alias) ≡ true = ground (arith, f) in
      rw (f, find_repo-append default_ctx r cfg.repos fresh, g) refl
  | inr f ↦
      let g : (default_ctx == r.alias) ≡ false = ground (arith, f) in
      rw (f, find_repo-append default_ctx r cfg.repos fresh, g) same
]

unregistered_default :
    (alias : String) (others : List RepoCtx) (cfg : RepoCtxCfg)
    → remove_repo alias cfg.repos ≡ some others
    → alias_exists others alias ≡ false
    → cfg.default ≡ or_no_ctx (find_repo default_ctx cfg.repos)
    → (without_repo alias others cfg).default ≡ or_no_ctx (find_repo default_ctx others)
unregistered_default alias others cfg e gone same = elim (Bool-cases (alias == default_ctx)) [
  | inl f ↦
      let g : alias ≡ default_ctx = ground (arith, f) in
      rw (f, find_repo-absent default_ctx others (rw (g) at gone)) refl
  | inr f ↦
      let g : (default_ctx == alias) ≡ false = ground (arith, f) in
      rw (f, find_repo-remove_repo alias default_ctx cfg.repos others g e) same
]

with_repo-IsConsistent :
    (r : RepoCtx) (cfg : RepoCtxCfg)
    → alias_exists cfg.repos r.alias ≡ false
    → IsConsistent cfg
    → IsConsistent (with_repo r cfg)
with_repo-IsConsistent r cfg fresh (d, same) =
    (are_distinct-append r cfg.repos d fresh, registered_default r cfg fresh same)

without_repo-IsConsistent :
    (alias : String) (others : List RepoCtx) (cfg : RepoCtxCfg)
    → remove_repo alias cfg.repos ≡ some others
    → IsConsistent cfg
    → IsConsistent (without_repo alias others cfg)
without_repo-IsConsistent alias others cfg e (d, same) =
    let (d', gone) = are_distinct-remove_repo alias cfg.repos others e d in
    (d', unregistered_default alias others cfg e gone same)

module _ (A : Api) where
  open A use {World}

  -- Commands that end well, one after the other.
  pub data Commands (first : World) : World → Type 0 where
    none_yet : Commands first first
    registered :
        (url user password alias : String) {v w : World}
        → Commands first v
        → register A url user password alias v ≡ (ok tt, w)
        → Commands first w
    unregistered :
        (alias : String) {v w : World}
        → Commands first v
        → unregister A alias v ≡ (ok tt, w)
        → Commands first w

  -- The file holds a consistent configuration.
  abbrev pub HoldsConsistent : World → Type 0
  HoldsConsistent w = (cfg : RepoCtxCfg) × (load_repo_cfg A w ≡ ok cfg) × IsConsistent cfg

  -- A registration of an alias that exists changes nothing.
  register_existing :
      (url user password alias : String) (cfg : RepoCtxCfg) (w w' : World)
      → load_repo_cfg A w ≡ ok cfg
      → alias_exists cfg.repos alias ≡ true
      → register A url user password alias w ≡ (ok tt, w')
      → w ≡ w'
  unfolding register check_alias
  register_existing url user password alias cfg w w' loaded there done =
      elim (Bool-cases (not (user == "") && password == "")) [
        | inl c ↦
            let (t, e) : (t : String) × (A.prompt_password w ≡ ok t) = ground (arith, c) in
            ground (arith, c, e)
        | inr c ↦ ground (arith, c)
      ]

  add_repo-HoldsConsistent :
      IsLawful A
      → (url user secret alias : String) (cfg : RepoCtxCfg) (w w' : World)
      → alias_exists cfg.repos alias ≡ false
      → IsConsistent cfg
      → add_repo A url user secret alias cfg w ≡ (ok tt, w')
      → HoldsConsistent w'
  unfolding add_repo
  add_repo-HoldsConsistent lawful url user secret alias cfg w w' fresh consistent done =
      let (_, _, more) =
        continue-eq-ok (A.validate_access url user secret w)
          (λ _. A.create_repository url user secret >>= λ created.
            store A (with_repo (record { url = created; alias = alias }) cfg))
          done in
      let (created, _, kept) =
        continue-eq-ok (A.create_repository url user secret _)
          (λ created. store A (with_repo (record { url = created; alias = alias }) cfg)) more in
      let r : RepoCtx = record { url = created; alias = alias } in
      (
        with_repo r cfg,
        store-load_repo_cfg A lawful (with_repo r cfg) _ w' kept,
        with_repo-IsConsistent r cfg fresh consistent,
      )

  register-HoldsConsistent :
      IsLawful A
      → (url user password alias : String) (w w' : World) → HoldsConsistent w
      → register A url user password alias w ≡ (ok tt, w')
      → HoldsConsistent w'
  register-HoldsConsistent lawful url user password alias w w' (cfg, loaded, consistent) done =
      elim (Bool-cases (alias_exists cfg.repos alias)) [
        | inl there ↦
            subst HoldsConsistent
              (register_existing url user password alias cfg w w' loaded there done)
              (cfg, loaded, consistent)
        | inr fresh ↦
            let (_, (secret, later)) = asked A url user password alias cfg w w' loaded fresh done in
            add_repo-HoldsConsistent lawful url user secret alias cfg w w' fresh consistent later
      ]

  remove_alias-HoldsConsistent :
      IsLawful A
      → (alias : String) (cfg : RepoCtxCfg) (repos : List RepoCtx) (w w' : World)
      → cfg.repos ≡ repos
      → load_repo_cfg A w ≡ ok cfg
      → IsConsistent cfg
      → remove_alias A alias cfg repos w ≡ (ok tt, w')
      → HoldsConsistent w'
  unfolding remove_alias
  remove_alias-HoldsConsistent lawful alias cfg [] w w' same loaded consistent done =
      let stays : w ≡ w' = ground arith in subst HoldsConsistent stays (cfg, loaded, consistent)
  remove_alias-HoldsConsistent lawful alias cfg (r ∷ repos) w w' same loaded consistent done =
      elim (Option-cases (remove_repo alias (r ∷ repos))) [
        | inl n ↦ absurd (ground (arith, n, done))
        | inr (others, s) ↦ (
          without_repo alias others cfg,
          store-load_repo_cfg A lawful (without_repo alias others cfg) w w'
              (rw (remove_alias, s) at done),
          without_repo-IsConsistent alias others cfg (ap (remove_repo alias) same ∙ s) consistent,
        )
      ]

  unregister-HoldsConsistent :
      IsLawful A
      → (alias : String) (w w' : World) → HoldsConsistent w
      → unregister A alias w ≡ (ok tt, w')
      → HoldsConsistent w'
  unfolding unregister
  unregister-HoldsConsistent lawful alias w w' (cfg, loaded, consistent) done =
      remove_alias-HoldsConsistent lawful alias cfg cfg.repos w w' refl loaded consistent
        (ground (arith, loaded, done))

  -- Whatever aliases are registered and removed, in any order, by commands that end well: where the
  -- file held a consistent configuration it holds one again. In it no alias is there twice, and the
  -- default is the repository of the alias default, or empty where there is none. What is written
  -- to the file is read back.
  pub Commands-HoldsConsistent :
      IsLawful A → (w w' : World) → HoldsConsistent w → Commands w w' → HoldsConsistent w'
  Commands-HoldsConsistent lawful w _ h none_yet = h
  Commands-HoldsConsistent lawful w w' h (registered url user password alias {v} before done) =
      register-HoldsConsistent lawful url user password alias v w'
        (Commands-HoldsConsistent lawful w v h before) done
  Commands-HoldsConsistent lawful w w' h (unregistered alias {v} before done) =
      unregister-HoldsConsistent lawful alias v w' (Commands-HoldsConsistent lawful w v h before)
        done
