-- ===== src/Controllers/Cluster/Endings.antt =====
-- How a call of the reconciler ends.
use arlon.Prelude.{
  String, ◌≡◌, refl, inl, inr, Bool, true, false, not, ◌&&◌, Option, none, some, arith, eqb, ◌==◌,
  string_eq, if◌then◌else◌, ◌≢◌, ap, ◌⊎◌,
}
use arlon.Go.Exec.{Result-cases, Result, ok, err, Exec, pure}
use arlon.Argo.{Application}
use arlon.Controllers.{Outcome, finished, retry_delay, either}
use arlon.Controllers.Cluster.External.{
  Cluster, AppReply, found, coded, uncoded, Call, set_status, patch_cluster, create_patch_dir,
  create_arlon_app, create_cluster_app, update_app, delete_app, delete_overrides_dir, Api,
}
use arlon.Controllers.Cluster.{
  cluster_finalizer, not_found, arlon_app_name, sync_annotation, or_default, host_of, is_some,
  update_state, look, delete_override, delete_cluster_app, delete_arlon_app, remove_finalizer,
  reconcile_delete, add_finalizer, validate_template, create_override, settle, keep_in_sync,
  ensure_cluster_app, ensure_apps, ensure_override, reconcile_cluster,
}
use arlon.Go.Exec.{continue}
use arlon.Controllers.Cluster.Permits.{Gone, Found, Validated, Overridden}

module _ (A : Api) where
  open A use {World}

  abbrev pub Ending : Type 0
  Ending = Result Outcome × World

  -- A write of the cluster's own object.
  abbrev pub IsRecord : Call → Type 0
  IsRecord (set_status c) = Unit
  IsRecord (patch_cluster before after) = Unit
  IsRecord _ = ⊥

  -- The worlds of a run: from the first one on, each behind a call.
  pub data Run (first : World) : World → Type 0 where
    started : Run first first
    called : (c : Call) {v : World} → Run first v → Run first (A.perform c v).1

  -- The arlon app is there, or it was not and has been created.
  abbrev pub ArlonAppReady : Cluster → World → World → Type 0
  ArlonAppReady cl w v =
      ((v ≡ w) × ((app : Application) × Found A (arlon_app_name cl.name) app w))
      ⊎ (Gone A (arlon_app_name cl.name) w
          × (A.perform
                (create_arlon_app cl.name cl.inner_cluster_name (or_default cl.arlon_helm_chart)
                  (host_of cl.autoscaler) (is_some cl.autoscaler))
                w
              ≡ (ok tt, v)))

  -- The cluster app is there with the cluster's profiles, or it has just been given them.
  abbrev pub ClusterAppReady : Cluster → World → World → Type 0
  ClusterAppReady cl v w' =
      (app : Application) × Found A cl.name app v
      × (((sync_annotation cl app ≡ none) × (w' ≡ v))
          ⊎ ((app' : Application) × (sync_annotation cl app ≡ some app')
              × (A.perform (update_app app') v ≡ (ok tt, w'))))

  -- Nothing is left to do for a cluster that is not to go: its status says created, which needs no
  -- write, and from the first world to the last at most the two applications were made ready.
  pub record IsSettled (cl : Cluster) (w w' : World) : Type 0 where
    pub validated : Validated A cl
    pub overridden : Overridden A cl
    pub between : World
    pub arlon_app : ArlonAppReady cl w between
    pub cluster_app : ClusterAppReady cl between w'
    pub created : (cl.state == "created") ≡ true

  module _ (first : World) (Q : Ending → Type 0)
      (recorded : (c : Call) (v : World) (o : Outcome)
        → IsRecord c
        → Run first v
        → Q (continue (A.perform c v) (λ _. pure o)))
      (again : (o : Outcome) (v : World) → o ≢ finished → Q (ok o, v)) where
    if-ends :
        (b : Bool) (m n : Exec World Outcome) (w : World)
        → (b ≡ true → Q (m w))
        → (b ≡ false → Q (n w))
        → Q ((if b then m else n) w)
    if-ends true m n w yes_ no_ = yes_ refl
    if-ends false m n w yes_ no_ = no_ refl

    option-ends :
        {X : Type 0} (o : Option X) (m : Exec World Outcome) (f : X → Exec World Outcome)
        (w : World)
        → (o ≡ none → Q (m w))
        → ((x : X) → o ≡ some x → Q (f x w))
        → let run : Exec World Outcome = elim o [ none ↦ m | some x ↦ f x ] in Q (run w)
    option-ends none m f w on_none on_some = on_none refl
    option-ends (some x) m f w on_none on_some = on_some x refl

    pub told :
        (c : Cluster) (state msg : String) (o : Outcome) (w : World)
        → Run first w
        → Q (update_state A c state msg o w)
    told c state msg o w r = recorded _ w o tt r

    read-ends :
        {X : Type 0} (r : Result X) (w : World) (handle : String → Exec World Outcome)
        (go : X → Exec World Outcome)
        → ((e : String) → Q (handle e w))
        → ((x : X) → Q (go x w))
        → Q (either (r, w) handle go)
    unfolding either
    read-ends (ok x) w handle go on_err on_ok = on_ok x
    read-ends (err e) w handle go on_err on_ok = on_err e

    call-ends :
        (c : Call) (w : World) (handle : String → Exec World Outcome)
        (go : Unit {0} → Exec World Outcome)
        → Run first w
        → ((e : String) (v : World) → Run first v → Q (handle e v))
        → ((v : World) → A.perform c w ≡ (ok tt, v) → Run first v → Q (go tt v))
        → Q (either (A.perform c w) handle go)
    unfolding either
    call-ends c w handle go r on_err on_ok = elim (Result-cases (A.perform c w).0) [
      | inr (e, h) ↦ rw (h) (on_err e (A.perform c w).1 (called c r))
      | inl (_, h) ↦ rw (h) (
          on_ok (A.perform c w).1 (ap (λ (x : Result (Unit {0})). (x, (A.perform c w).1)) h)
            (called c r))
    ]

    look-ends :
        (state name : String) (cl : Cluster) (r : AppReply)
        (there : Application → Exec World Outcome) (gone : Exec World Outcome) (w : World)
        → A.get_app name w ≡ r
        → Run first w
        → ((app : Application) → Found A name app w → Q (there app w))
        → (Gone A name w → Q (gone w))
        → Q (look A state cl r there gone w)
    look-ends state name cl (found app) there gone w e r on_there on_gone = on_there app e
    look-ends state name cl uncoded there gone w e r on_there on_gone = told cl _ _ _ w r
    look-ends state name cl (coded code) there gone w e r on_there on_gone =
        if-ends (not (eqb code not_found)) _ _ w (λ _. told cl _ _ _ w r)
          (λ same. on_gone (ground arith))

    later : (v : World) → Q (ok retry_delay, v)
    later v = again retry_delay v (λ e. absurd (ground arith))

    module _ (cl : Cluster) where
      reconcile_delete-ends : (w : World) → Run first w → Q (reconcile_delete A cl w)
      unfolding reconcile_delete delete_override delete_cluster_app delete_arlon_app
          remove_finalizer
      reconcile_delete-ends w r =
          look-ends _ cl.name cl (A.get_app cl.name w) _ _ w refl r
            (λ app _.
              if-ends (is_some cl.override && cl.override_successful) _ _ w
                (λ _.
                  read-ends (A.new_kube_client w) w _ _ (λ e. told cl _ _ _ w r)
                    (λ _.
                      call-ends (delete_overrides_dir app) w _ _ r (λ e v k. told cl _ _ _ v k)
                        (λ v _ k. told (record cl { override_successful = false }) _ _ _ v k)))
                (λ _.
                  if-ends app.deleting _ _ w (λ _. later w)
                    (λ _.
                      call-ends (delete_app cl.name) w _ _ r (λ e v k. told cl _ _ _ v k)
                        (λ v _ k. told cl _ _ _ v k))))
            (λ _.
              look-ends _ (arlon_app_name cl.name) cl (A.get_app (arlon_app_name cl.name) w) _ _ w
                refl r
                (λ app _.
                  if-ends app.deleting _ _ w (λ _. later w)
                    (λ _.
                      call-ends (delete_app (arlon_app_name cl.name)) w _ _ r
                        (λ e v k. told cl _ _ _ v k) (λ v _ k. told cl _ _ _ v k)))
                (λ _. recorded _ w finished tt r))

      settle-ends :
          (w : World)
          → Run first w
          → ((cl.state == "created") ≡ true → Q (ok finished, w))
          → Q (settle A cl w)
      unfolding settle
      settle-ends w r rest =
          if-ends (not (cl.state == "created")) _ _ w (λ _. told cl _ _ _ w r)
            (λ e. rest (ground arith))

      ensure_cluster_app-ends :
          (w : World)
          → Run first w
          → ((w' : World)
              → ClusterAppReady cl w w'
              → (cl.state == "created") ≡ true
              → Q (ok finished, w'))
          → Q (ensure_cluster_app A cl w)
      unfolding ensure_cluster_app keep_in_sync
      ensure_cluster_app-ends w r rest =
          look-ends _ cl.name cl (A.get_app cl.name w) _ _ w refl r
            (λ app f.
              option-ends (sync_annotation cl app) _ _ w
                (λ e. settle-ends w r (λ s. rest w (app, f, inl (e, refl)) s))
                (λ app' e.
                  call-ends (update_app app') w _ _ r (λ x v k. told cl _ _ _ v k)
                    (λ v done k. settle-ends v k (λ s. rest v (app, f, inr (app', e, done)) s))))
            (λ _.
              call-ends (create_cluster_app _ _ _ _) w _ _ r (λ e v k. told cl _ _ _ v k)
                (λ v _ k. told cl _ _ _ v k))

      ensure_apps-ends :
          (w : World)
          → Run first w
          → ((v w' : World)
              → ArlonAppReady cl w v
              → ClusterAppReady cl v w'
              → (cl.state == "created") ≡ true
              → Q (ok finished, w'))
          → Q (ensure_apps A cl w)
      unfolding ensure_apps
      ensure_apps-ends w r rest =
          look-ends _ (arlon_app_name cl.name) cl (A.get_app (arlon_app_name cl.name) w) _ _ w refl
            r (λ app f. ensure_cluster_app-ends w r (λ w'. rest w w' (inl (refl, (app, f)))))
            (λ g.
              call-ends (create_arlon_app _ _ _ _ _) w _ _ r (λ e v k. told cl _ _ _ v k)
                (λ v done k. ensure_cluster_app-ends v k (λ w'. rest v w' (inr (g, done)))))

      settled_apps-ends :
          (w : World)
          → Run first w
          → Validated A cl
          → Overridden A cl
          → ((w' : World) → IsSettled cl w w' → Q (ok finished, w'))
          → Q (ensure_apps A cl w)
      settled_apps-ends w r valid overridden rest = ensure_apps-ends w r (λ v w' a c s.
          rest w' (record {
            validated = valid;
            overridden = overridden;
            between = v;
            arlon_app = a;
            cluster_app = c;
            created = s;
          }))

      ensure_override-ends :
          (w : World)
          → Run first w
          → Validated A cl
          → ((w' : World) → IsSettled cl w w' → Q (ok finished, w'))
          → Q (ensure_override A cl w)
      unfolding ensure_override create_override
      ensure_override-ends w r valid rest =
          option-ends cl.override _ _ w (λ e. settled_apps-ends w r valid (inl e) rest)
            (λ ovr e.
              if-ends (not cl.override_successful) _ _ w
                (λ _.
                  call-ends (create_patch_dir _ ovr _) w _ _ r (λ e v k. told cl _ _ _ v k)
                    (λ v _ k. told (record cl { override_successful = true }) _ _ _ v k))
                (λ o. settled_apps-ends w r valid (inr (ground arith)) rest))

      pub reconcile_cluster-ends :
          (w : World)
          → Run first w
          → ((w' : World) → IsSettled cl w w' → Q (ok finished, w'))
          → Q (reconcile_cluster A cl w)
      unfolding reconcile_cluster validate_template add_finalizer
      reconcile_cluster-ends w r rest =
          if-ends cl.deleting _ _ w (λ _. reconcile_delete-ends w r)
            (λ d.
              if-ends (not (A.contains_finalizer cl.finalizers cluster_finalizer)) _ _ w
                (λ _. recorded _ w finished tt r)
                (λ f.
                  if-ends (cl.inner_cluster_name == "") _ _ w
                    (λ _.
                      read-ends (A.get_repo_creds cl.cluster_template.url w) w _ _
                        (λ e. told cl _ _ _ w r)
                        (λ creds.
                          read-ends (A.validate_git_dir creds cl.cluster_template w) w _ _
                            (λ e. told cl _ _ _ w r)
                            (λ inner. told (record cl { inner_cluster_name = inner }) _ _ _ w r)))
                    (λ i. ensure_override-ends w r ((d, ground arith), i) rest)))
