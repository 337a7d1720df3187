-- ===== src/Git/Laws.antt =====
-- What is committed and pushed.
use mathlib.Core.Path.{subst}
use arlon.Prelude.{
  String, ◌≡◌, refl, ◌∙◌, ap, sym, inl, inr, Bool, true, false, not, ◌||◌, List, [], ◌∷◌, arith,
  string_eq, if◌then◌else◌, Bool-cases, ◌⊎◌,
}
use arlon.Go.Exec.{
  Result, ok, Exec, pure, Result-cases, continue-eq-ok, continue-pure_ok, wrapped, wrapped-eq-ok,
  ◌>>◌,
}
use arlon.Git.{RepoCreds, FileStatus, Git, is_broken, add_all, commit_changes, publish}

module _ (git : Git) where
  -- Each changed file is passed over, or added to the index: the worlds between.
  pub data Added (tmp_dir : String) : List FileStatus → Bool → git.World → git.World → Type 0 where
    done : {w : git.World} → Added tmp_dir [] false w w
    passed_over :
        {s : FileStatus} {ss : List FileStatus} {b : Bool} {w w' : git.World}
        → (s.deleted ≡ true) ⊎ (is_broken git tmp_dir s.file w ≡ ok true)
        → Added tmp_dir ss b w w'
        → Added tmp_dir (s ∷ ss) b w w'
    added :
        {s : FileStatus} {ss : List FileStatus} {b : Bool} {w w' : git.World}
        → s.deleted ≡ false
        → is_broken git tmp_dir s.file w ≡ ok false
        → Added tmp_dir ss b (git.add s.file w) w'
        → Added tmp_dir (s ∷ ss) true w w'

  add_all-Added :
      (tmp_dir : String) (changed : Bool) (ss : List FileStatus) (w v : git.World) (c : Bool)
      → add_all git tmp_dir changed ss w ≡ (ok c, v)
      → (b : Bool) × Added tmp_dir ss b w v × (c ≡ (changed || b))
  unfolding add_all
  add_all-Added tmp_dir changed [] w v c h =
      let same : w ≡ v = ap (λ (r : Result Bool × git.World). r.1) h in
      (false, subst (λ u. Added tmp_dir [] false w u) same done, ground (arith, h))
  add_all-Added tmp_dir changed (s ∷ ss) w v c h = elim (Bool-cases s.deleted) [
    | inl d ↦
        let (b, rest, e) = add_all-Added tmp_dir changed ss w v c (rw (add_all, d) at h) in
        (b, passed_over (inl d) rest, e)
    | inr d ↦ elim (Result-cases (is_broken git tmp_dir s.file w)) [
      | inr (_, f) ↦ absurd (let k = rw (add_all, d, f) at h in ground (arith, k))
      | inl (true, f) ↦
          let (b, rest, e) = add_all-Added tmp_dir changed ss w v c (rw (add_all, d, f) at h) in
          (b, passed_over (inr f) rest, e)
      | inl (false, f) ↦
          let (b, rest, e) =
            add_all-Added tmp_dir true ss (git.add s.file w) v c (rw (add_all, d, f) at h) in
          (true, added d f rest, ground (arith, e))
    ]
  ]

  abbrev when_changed : String → Exec git.World (Unit {0}) → Bool → Exec git.World Bool
  when_changed context call changed =
      if not changed then pure false else wrapped context call >> pure true

  when_changed_lem :
      (context : String) (call : Exec git.World (Unit {0})) (c b : Bool) (u v : git.World)
      → when_changed context call c u ≡ (ok b, v)
      → (c ≡ b) × (if b then call u ≡ (ok tt, v) else v ≡ u)
  when_changed_lem context call false false u v h =
      (refl, sym (ap (λ (r : Result Bool × git.World). r.1) h))
  when_changed_lem context call false true u v h = absurd (ground (arith, h))
  when_changed_lem context call true b u v h =
      let (_, _, same) = continue-eq-ok (wrapped context call u) (λ _. pure true) h in
      let yes_ : true ≡ b = ground (arith, same) in
      let made = wrapped-eq-ok context call u (continue-pure_ok (wrapped context call u) true h) in
      (yes_, subst (λ d. if d then call u ≡ (ok tt, v) else v ≡ u) yes_ made)

  Added-same :
      (tmp_dir : String) (ss : List FileStatus) (w v : git.World)
      → Added tmp_dir ss false w v
      → v ≡ w
  Added-same tmp_dir [] w v done = refl
  Added-same tmp_dir (s ∷ ss) w v (passed_over _ rest) = Added-same tmp_dir ss w v rest

  pub commit_changes-Added :
      (tmp_dir message : String) (w v : git.World) (b : Bool)
      → commit_changes git tmp_dir message w ≡ (ok b, v)
      → (ss : List FileStatus) × (git.status w ≡ ok ss)
        × ((u : git.World) × Added tmp_dir ss b w u
            × (if b then git.commit message u ≡ (ok tt, v) else v ≡ u))
  unfolding commit_changes
  commit_changes-Added tmp_dir message w v b h = elim (Result-cases (git.status w)) [
    | inr (_, e) ↦ absurd (let k = rw (commit_changes, e) at h in ground (arith, k))
    | inl (ss, e) ↦
        let k = rw (commit_changes, e) at h in
        let (c, first, rest) =
          continue-eq-ok (add_all git tmp_dir false ss w)
            (when_changed "failed to commit change: " (git.commit message)) k in
        let (b', adds, same) = add_all-Added tmp_dir false ss w _ c first in
        let (taken, last) =
          when_changed_lem "failed to commit change: " (git.commit message) c b _ v rest in
        let equal : b' ≡ b = sym same ∙ taken in
        (
          ss,
          e,
          (
            (add_all git tmp_dir false ss w).1,
            subst (λ d. Added tmp_dir ss d w (add_all git tmp_dir false ss w).1) equal adds,
            last,
          ),
        )
  ]

  publish_end :
      (creds : RepoCreds) (tmp_dir message : String) (ss : List FileStatus) (w u x v : git.World)
      (c b : Bool)
      → c ≡ b
      → Added tmp_dir ss c w u
      → (if c then git.commit message u ≡ (ok tt, x) else x ≡ u)
      → (if b then git.push creds x ≡ (ok tt, v) else v ≡ x)
      → if b
        then ((x : git.World) × (git.commit message u ≡ (ok tt, x))
            × (git.push creds x ≡ (ok tt, v)))
        else v ≡ w
  publish_end creds tmp_dir message ss w u x v true true same adds commits pushes =
      (x, commits, pushes)
  publish_end creds tmp_dir message ss w u x v false false same adds commits pushes =
      pushes ∙ (commits ∙ Added-same tmp_dir ss w u adds)
  publish_end creds tmp_dir message ss w u x v true false same adds commits pushes =
      absurd (ground (arith, same))
  publish_end creds tmp_dir message ss w u x v false true same adds commits pushes =
      absurd (ground (arith, same))

  -- When `publish` ends without an error: of the changed files of the worktree, in order, those that
  -- are staged as deleted or are broken links were passed over and the others added. If it answers
  -- true, one at least was added, and these were committed and the commit pushed. If it answers
  -- false, all were passed over, and the repository is as it was: no commit, no push.
  pub publish-Added :
      (creds : RepoCreds) (tmp_dir message : String) (w v : git.World) (b : Bool)
      → publish git creds tmp_dir message w ≡ (ok b, v)
      → (ss : List FileStatus) × (git.status w ≡ ok ss)
        × ((u : git.World) × Added tmp_dir ss b w u
            × (if b
                then ((x : git.World) × (git.commit message u ≡ (ok tt, x))
                    × (git.push creds x ≡ (ok tt, v)))
                else v ≡ w))
  unfolding publish
  publish-Added creds tmp_dir message w v b h =
      let call : Exec git.World Bool =
        wrapped "failed to commit changes: " (commit_changes git tmp_dir message) in
      let (c, first, rest) =
        continue-eq-ok (call w)
          (when_changed "failed to push to remote repository: " (git.push creds)) h in
      let (same, last) =
        when_changed_lem "failed to push to remote repository: " (git.push creds) c b _ v rest in
      let (ss, e, (u, adds, commits)) =
        commit_changes-Added tmp_dir message w _ c (
          wrapped-eq-ok "failed to commit changes: " (commit_changes git tmp_dir message) w
            first) in
      (
        ss,
        e,
        (
          u,
          subst (λ d. Added tmp_dir ss d w u) same adds,
          publish_end creds tmp_dir message ss w u _ v c b same adds commits last,
        ),
      )
