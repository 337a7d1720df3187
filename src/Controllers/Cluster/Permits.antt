-- ===== src/Controllers/Cluster/Permits.antt =====
-- Which calls the controller makes, and in which worlds.
use arlon.Prelude.{
  String, ◌≡◌, refl, ◌⊎◌, inl, inr, true, false, not, ◌&&◌, none, some, arith, eqb, ◌==◌, string_eq,
  Bool-cases,
}
use arlon.Go.Exec.{Exec, pure, continue-keeps}
use arlon.Argo.{Application}
use arlon.Controllers.{
  Reply, present, missing, failed, Outcome, finished, retry_delay, attempt, either-keeps, if-keeps,
  option-keeps, reads-keeps,
}
use arlon.Controllers.Cluster.External.{
  OverrideSpec, Cluster, AppReply, found, coded, uncoded, Call, set_status, patch_cluster,
  create_patch_dir, create_arlon_app, create_cluster_app, update_app, delete_app,
  delete_overrides_dir, Api,
}
use arlon.Controllers.Cluster.{
  cluster_finalizer, not_found, arlon_app_name, or_default, host_of, source_of, sync_annotation,
  is_some, update_state, look, delete_override, delete_cluster_app, delete_arlon_app,
  remove_finalizer, reconcile_delete, add_finalizer, validate_template, create_override, settle,
  keep_in_sync, ensure_cluster_app, ensure_apps, ensure_override, reconcile_cluster, reconcile_read,
  reconcile,
}

module _ (A : Api) where
  open A use {World}

  -- No application of this name.
  abbrev pub Gone : String → World → Type 0
  Gone name w = A.get_app name w ≡ coded not_found

  abbrev pub Found : String → Application → World → Type 0
  Found name app w = A.get_app name w ≡ found app

  -- A cluster that is not to go and that holds the finalizer.
  abbrev pub Live : Cluster → Type 0
  Live cl = (cl.deleting ≡ false) × (A.contains_finalizer cl.finalizers cluster_finalizer ≡ true)

  abbrev pub Validated : Cluster → Type 0
  Validated cl = Live cl × ((cl.inner_cluster_name == "") ≡ false)

  -- The override, when there is one, is in git.
  abbrev pub Overridden : Cluster → Type 0
  Overridden cl = (cl.override ≡ none) ⊎ (cl.override_successful ≡ true)

  -- The calls that may be made for a cluster, each with what has to be true of the world then.
  abbrev pub Permits : Cluster → Call → World → Type 0
  Permits cl (set_status c) w = (c.name ≡ cl.name) × (c.finalizers ≡ cl.finalizers)
  Permits cl (patch_cluster before after) w =
      (before ≡ cl)
      × (((cl.deleting ≡ false)
            × (after ≡ record cl { finalizers = A.add_finalizer cl.finalizers cluster_finalizer }))
          ⊎ ((cl.deleting ≡ true)
              × (after
                  ≡ record cl { finalizers = A.remove_finalizer cl.finalizers cluster_finalizer })
              × Gone cl.name w
              × Gone (arlon_app_name cl.name) w))
  Permits cl (create_patch_dir name ovr template) w =
      Validated cl
      × (cl.override ≡ some ovr)
      × (cl.override_successful ≡ false)
      × (name ≡ cl.name)
      × (template ≡ cl.cluster_template)
  Permits cl (create_arlon_app name inner chart host scale) w =
      Validated cl
      × Overridden cl
      × Gone (arlon_app_name cl.name) w
      × (name ≡ cl.name)
      × (inner ≡ cl.inner_cluster_name)
      × (chart ≡ or_default cl.arlon_helm_chart)
      × (host ≡ host_of cl.autoscaler)
      × (scale ≡ is_some cl.autoscaler)
  Permits cl (create_cluster_app name inner source overridden) w =
      Validated cl
      × Overridden cl
      × (source ≡ source_of cl)
      × Gone cl.name w
      × (name ≡ cl.name)
      × (inner ≡ cl.inner_cluster_name)
      × (overridden ≡ is_some cl.override)
  Permits cl (update_app app') w =
      Validated cl
      × ((app : Application) × Found cl.name app w × (sync_annotation cl app ≡ some app'))
  Permits cl (delete_app name) w =
      (cl.deleting ≡ true)
      × (((name ≡ cl.name) × ((app : Application) × Found cl.name app w × (app.deleting ≡ false)))
          ⊎ ((name ≡ arlon_app_name cl.name)
              × Gone cl.name w
              × ((app : Application) × Found name app w × (app.deleting ≡ false))))
  Permits cl (delete_overrides_dir app) w =
      (cl.deleting ≡ true) × (cl.override_successful ≡ true) × Found cl.name app w

  module _ (cl : Cluster) (P : World → Type 0)
      (keep : (c : Call) (w : World) → Permits cl c w → P w → P (A.perform c w).1) where
    update_state-keeps :
        (c : Cluster) (state msg : String) (o : Outcome) (w : World)
        → c.name ≡ cl.name
        → c.finalizers ≡ cl.finalizers
        → P w
        → P (update_state A c state msg o w).1
    update_state-keeps c state msg o w n f h =
        continue-keeps P (A.perform (set_status (record c { state = state; message = msg })) w)
          (λ _. pure o) (keep _ w (n, f) h) (λ _ v k. k)

    -- a call, with an error that is written down and a way on
    attempt-keeps :
        (c : Call) (handle : String → Exec World Outcome) (go : Unit {0} → Exec World Outcome)
        (w : World)
        → Permits cl c w
        → P w
        → ((e : String) (v : World) → P v → P (handle e v).1)
        → ((v : World) → P v → P (go tt v).1)
        → P (attempt (A.perform c) handle go w).1
    attempt-keeps c handle go w permitted h on_err on_ok =
        either-keeps P (A.perform c w) handle go (keep c w permitted h) on_err (λ _. on_ok)

    look-keeps :
        (state name : String) (r : AppReply) (there : Application → Exec World Outcome)
        (gone : Exec World Outcome) (w : World)
        → A.get_app name w ≡ r
        → P w
        → ((app : Application) → Found name app w → P (there app w).1)
        → (Gone name w → P (gone w).1)
        → P (look A state cl r there gone w).1
    look-keeps state name (found app) there gone w e h on_there on_gone = on_there app e
    look-keeps state name uncoded there gone w e h on_there on_gone =
        update_state-keeps cl state _ retry_delay w refl refl h
    look-keeps state name (coded code) there gone w e h on_there on_gone =
        elim (Bool-cases (eqb code not_found)) [
          | inl same ↦ rw (same) (on_gone (ground arith))
          | inr other ↦ rw (other) (update_state-keeps cl state _ retry_delay w refl refl h)
        ]

    abbrev Keeps : Exec World Outcome → Type 0
    Keeps m = (w : World) → P w → P (m w).1

    settle-keeps : Keeps (settle A cl)
    unfolding settle
    settle-keeps w h =
        if-keeps P (not (cl.state == "created")) _ _ w
          (λ _. update_state-keeps cl _ _ finished w refl refl h) (λ _. h)

    told : (state msg : String) → Keeps (update_state A cl state msg retry_delay)
    told state msg w h = update_state-keeps cl state msg retry_delay w refl refl h

    delete_override-keeps :
        (app : Application)
        → cl.deleting ≡ true
        → cl.override_successful ≡ true
        → (w : World) → Found cl.name app w
        → P w
        → P (delete_override A cl app w).1
    unfolding delete_override
    delete_override-keeps app d o w f h =
        reads-keeps P A.new_kube_client _ _ w (λ e _. told _ _ w h)
          (λ _ _.
            attempt-keeps (delete_overrides_dir app) _ _ w (d, o, f) h (λ e v k. told _ _ v k)
              (λ v k.
                update_state-keeps (record cl { override_successful = false }) _ _ finished v refl
                  refl k))

    delete_cluster_app-keeps :
        (app : Application)
        → cl.deleting ≡ true
        → (w : World) → Found cl.name app w
        → P w
        → P (delete_cluster_app A cl app w).1
    unfolding delete_cluster_app
    delete_cluster_app-keeps app d w f h =
        if-keeps P app.deleting _ _ w (λ _. h)
          (λ e.
            attempt-keeps (delete_app cl.name) _ _ w (d, inl (refl, (app, f, e))) h
              (λ x v k. told _ _ v k) (λ v k. update_state-keeps cl _ _ finished v refl refl k))

    delete_arlon_app-keeps :
        (app : Application)
        → cl.deleting ≡ true
        → (w : World) → Gone cl.name w
        → Found (arlon_app_name cl.name) app w
        → P w
        → P (delete_arlon_app A cl app w).1
    unfolding delete_arlon_app
    delete_arlon_app-keeps app d w g f h =
        if-keeps P app.deleting _ _ w (λ _. h)
          (λ e.
            attempt-keeps (delete_app (arlon_app_name cl.name)) _ _ w
              (d, inr (refl, g, (app, f, e))) h (λ x v k. told _ _ v k)
              (λ v k. update_state-keeps cl _ _ finished v refl refl k))

    remove_finalizer-keeps :
        cl.deleting ≡ true
        → (w : World) → Gone cl.name w
        → Gone (arlon_app_name cl.name) w
        → P w
        → P (remove_finalizer A cl w).1
    unfolding remove_finalizer
    remove_finalizer-keeps d w g g' h =
        continue-keeps P (A.perform (patch_cluster cl _) w) (λ _. pure finished)
          (keep _ w (refl, inr (d, refl, g, g')) h) (λ _ v k. k)

    reconcile_delete-keeps : cl.deleting ≡ true → Keeps (reconcile_delete A cl)
    unfolding reconcile_delete
    reconcile_delete-keeps d w h =
        look-keeps _ cl.name (A.get_app cl.name w) _ _ w refl h
          (λ app f.
            if-keeps P (is_some cl.override && cl.override_successful) _ _ w
              (λ e. delete_override-keeps app d (ground arith) w f h)
              (λ _. delete_cluster_app-keeps app d w f h))
          (λ g.
            look-keeps _ _ (A.get_app (arlon_app_name cl.name) w) _ _ w refl h
              (λ app f. delete_arlon_app-keeps app d w g f h)
              (λ g'. remove_finalizer-keeps d w g g' h))

    add_finalizer-keeps : cl.deleting ≡ false → Keeps (add_finalizer A cl)
    unfolding add_finalizer
    add_finalizer-keeps d w h =
        continue-keeps P (A.perform (patch_cluster cl _) w) (λ _. pure finished)
          (keep _ w (refl, inl (d, refl)) h) (λ _ v k. k)

    validate_template-keeps : Keeps (validate_template A cl)
    unfolding validate_template
    validate_template-keeps w h =
        reads-keeps P (A.get_repo_creds cl.cluster_template.url) _ _ w (λ e _. told _ _ w h)
          (λ creds _.
            reads-keeps P (A.validate_git_dir creds cl.cluster_template) _ _ w (λ e _. told _ _ w h)
              (λ inner _.
                update_state-keeps (record cl { inner_cluster_name = inner }) _ _ finished w refl
                  refl h))

    create_override-keeps :
        (ovr : OverrideSpec)
        → Validated cl
        → cl.override ≡ some ovr
        → cl.override_successful ≡ false
        → Keeps (create_override A cl ovr)
    unfolding create_override
    create_override-keeps ovr l o s w h =
        attempt-keeps (create_patch_dir cl.name ovr cl.cluster_template) _ _ w (l, o, s, refl, refl)
          h (λ e v k. told _ _ v k)
          (λ v k.
            update_state-keeps (record cl { override_successful = true }) _ _ finished v refl refl
              k)

    keep_in_sync-keeps :
        Validated cl
        → (app : Application) (w : World) → Found cl.name app w
        → P w
        → P (keep_in_sync A cl app w).1
    unfolding keep_in_sync
    keep_in_sync-keeps l app w f h =
        option-keeps P (sync_annotation cl app) _ _ w (λ _. settle-keeps w h)
          (λ app' e.
            attempt-keeps (update_app app') _ _ w (l, (app, f, e)) h (λ x v k. told _ _ v k)
              (λ v k. settle-keeps v k))

    ensure_cluster_app-keeps : Validated cl → Overridden cl → Keeps (ensure_cluster_app A cl)
    unfolding ensure_cluster_app
    ensure_cluster_app-keeps l o w h =
        look-keeps _ cl.name (A.get_app cl.name w) _ _ w refl h
          (λ app f. keep_in_sync-keeps l app w f h)
          (λ g.
            attempt-keeps (create_cluster_app cl.name cl.inner_cluster_name (source_of cl) _) _ _ w
              (l, o, refl, g, refl, refl, refl) h (λ e v k. told _ _ v k)
              (λ v k. update_state-keeps cl _ _ finished v refl refl k))

    ensure_apps-keeps : Validated cl → Overridden cl → Keeps (ensure_apps A cl)
    unfolding ensure_apps
    ensure_apps-keeps l o w h =
        look-keeps _ _ (A.get_app (arlon_app_name cl.name) w) _ _ w refl h
          (λ app f. ensure_cluster_app-keeps l o w h)
          (λ g.
            attempt-keeps (create_arlon_app _ _ _ _ _) _ _ w (l, o, g, refl, refl, refl, refl, refl)
              h (λ e v k. told _ _ v k) (λ v k. ensure_cluster_app-keeps l o v k))

    ensure_override-keeps : Validated cl → Keeps (ensure_override A cl)
    unfolding ensure_override
    ensure_override-keeps l w h =
        option-keeps P cl.override _ _ w (λ e. ensure_apps-keeps l (inl e) w h)
          (λ ovr e.
            if-keeps P (not cl.override_successful) _ _ w
              (λ s. create_override-keeps ovr l e (ground arith) w h)
              (λ s. ensure_apps-keeps l (inr (ground arith)) w h))

    reconcile_cluster-keeps : Keeps (reconcile_cluster A cl)
    unfolding reconcile_cluster
    reconcile_cluster-keeps w h =
        if-keeps P cl.deleting _ _ w (λ d. reconcile_delete-keeps d w h)
          (λ d.
            if-keeps P (not (A.contains_finalizer cl.finalizers cluster_finalizer)) _ _ w
              (λ _. add_finalizer-keeps d w h)
              (λ f.
                if-keeps P (cl.inner_cluster_name == "") _ _ w (λ _. validate_template-keeps w h)
                  (λ i. ensure_override-keeps ((d, ground arith), i) w h)))

  reconcile_read-keeps :
      (P : World → Type 0) (w : World) (r : Reply Cluster)
      → P w
      → ((cl : Cluster)
          → r ≡ present cl
          → (c : Call) (v : World) → Permits cl c v
          → P v
          → P (A.perform c v).1)
      → P (reconcile_read A r w).1
  unfolding reconcile_read
  reconcile_read-keeps P w missing h keep = h
  reconcile_read-keeps P w (failed e) h keep = h
  reconcile_read-keeps P w (present cl) h keep =
      let k = keep cl refl in
      reads-keeps P (A.new_patch_helper cl) _ _ w (λ _ _. h)
        (λ _ _.
          reads-keeps P A.new_application_client _ _ w (λ e _. told cl P k _ _ w h)
            (λ _ _. reconcile_cluster-keeps cl P k w h))

  -- What every permitted call keeps, a call of the reconciler keeps: it makes no other call. So the
  -- finalizer is removed only from a cluster that is to go and whose two applications Argo CD does
  -- not find, the arlon app is deleted only where the cluster app is not found, and each of the two
  -- applications is created only where Argo CD does not find it, under the cluster's name and inner
  -- name, for a live cluster that holds the finalizer, with its template validated and its override
  -- in git.
  pub reconcile-Permits :
      (P : World → Type 0) (w : World)
      → ((cl : Cluster)
          → A.get_cluster w ≡ present cl
          → (c : Call) (v : World) → Permits cl c v
          → P v
          → P (A.perform c v).1)
      → P w
      → P (reconcile A w).1
  unfolding reconcile
  reconcile-Permits P w keep h = reconcile_read-keeps P w (A.get_cluster w) h keep
