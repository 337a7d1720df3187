-- ===== src/Controllers/Registration/Laws.antt =====
-- Which calls the controller of cluster registrations makes, and in which worlds.
use arlon.Prelude.{
  String, ◌≡◌, refl, ◌⊎◌, inl, inr, true, false, not, ◌||◌, Option, none, some, arith, ◌==◌,
  string_eq,
}
use arlon.Go.Exec.{ok, err, pure, continue-keeps}
use arlon.Go.Map.{Map, lookup}
use arlon.Prelude.{differs}
use arlon.Controllers.{
  Reply, present, missing, failed, Outcome, finished, retry_delay, if-keeps, reads-keeps,
  either-keeps_known,
}
use arlon.Controllers.Registration.External.{Registration, Query, Api}
use arlon.Controllers.Registration.{
  registration_finalizer, registered_name, update_state, remove_finalizer, reconcile_delete,
  add_finalizer, add_cluster, read_kubeconfig, read_secret, register, reconcile_registration,
  reconcile_read, reconcile,
}

abbrev pub by_name : String → Query
by_name name = record { name = name; server = "" }

module _ (A : Api) where
  open A use {World}

  abbrev pub InArgo : String → World → Type 0
  InArgo name w = (server : String) × (A.get_cluster (by_name name) w ≡ ok server)

  -- An error of Argo CD on the cluster's name, whatever the cause: the code takes each for an
  -- unknown cluster, also one that could not be queried.
  abbrev pub FailsInArgo : String → World → Type 0
  FailsInArgo name w = (e : String) × (A.get_cluster (by_name name) w ≡ err e)

  -- The client of the cluster: made from the kubeconfig that the registration's secret holds, under
  -- the registration's key, in the world `at`.
  abbrev pub Connects : World → Registration → A.Config → A.Clientset → Type 0
  Connects at cr conf clientset =
      (secret : Map A.Bytes) × ((data_ : A.Bytes) × (A.get_secret cr.kubeconfig_secret_name at
          ≡ present secret)
        × (lookup cr.kubeconfig_secret_key_name secret ≡ some data_)
        × (A.rest_config data_ ≡ ok conf)
        × (A.new_clientset conf ≡ ok clientset))

  -- What the controller relies on of Argo CD: it finds what was added, and answers with an error on
  -- what was deleted.
  pub record IsLawful : Type 0 where
    pub created :
        (name : String) (conf : A.Config) (token : A.Token) (w w' : World)
        → A.create_cluster name conf token w ≡ (ok tt, w')
        → InArgo name w'
    pub deleted :
        (q : Query) (w w' : World) → A.delete_cluster q w ≡ (ok tt, w') → FailsInArgo q.name w'

  -- A registration that is not to go, that has a valid spec and that is in no final state.
  pub record IsOpen (cr : Registration) : Type 0 where
    pub live : cr.deleting ≡ false
    pub incomplete : (cr.state == "complete") ≡ false
    pub faultless : (cr.state == "error") ≡ false
    pub valid : (cr.kubeconfig_secret_name == "" || cr.kubeconfig_secret_key_name == "") ≡ false
    pub held : A.contains_finalizer cr.finalizers registration_finalizer ≡ true

  -- A predicate that the calls keep which may be made for a registration, each with what has to be
  -- true of the world then; `at` is the world of the start.
  pub record Keeps (at : World) (cr : Registration) (P : World → Type 0) : Type 0 where
    pub status :
        (state msg : String) (w : World)
        → cr.deleting ≡ false
        → (state ≡ "complete" → InArgo cr.cluster_name w ⊎ InArgo (registered_name cr) w)
        → P w
        → P (A.update_status (record cr { state = state; message = msg }) w).1
    pub hold :
        (w : World)
        → cr.deleting ≡ false
        → P w
        → P
            (A.patch cr
              (record cr { finalizers = A.add_finalizer cr.finalizers registration_finalizer })
              w).1
    pub release :
        (w : World)
        → cr.deleting ≡ true
        → FailsInArgo cr.cluster_name w
        → P w
        → P
            (A.patch cr
              (record cr { finalizers = A.remove_finalizer cr.finalizers registration_finalizer })
              w).1
    pub delete_cluster :
        (server : String) (w : World)
        → cr.deleting ≡ true
        → A.get_cluster (by_name cr.cluster_name) w ≡ ok server
        → P w
        → P (A.delete_cluster (record { name = cr.cluster_name; server = server }) w).1
    pub install :
        (conf : A.Config) (clientset : A.Clientset) (w : World)
        → IsOpen cr
        → FailsInArgo cr.cluster_name w
        → Connects at cr conf clientset
        → P w
        → P (A.install_manager_rbac clientset w).1
    pub create :
        (conf : A.Config) (clientset : A.Clientset) (token : A.Token) (v w : World)
        → IsOpen cr
        → FailsInArgo cr.cluster_name v
        → Connects at cr conf clientset
        → A.install_manager_rbac clientset v ≡ (ok token, w)
        → P w
        → P (A.create_cluster (registered_name cr) conf token w).1

  module _ (lawful : IsLawful) (at : World) (cr : Registration) (P : World → Type 0)
      (k : Keeps at cr P) where
    told :
        (state msg : String) (o : Outcome) (w : World)
        → cr.deleting ≡ false
        → (state ≡ "complete" → InArgo cr.cluster_name w ⊎ InArgo (registered_name cr) w)
        → P w
        → P (update_state A cr state msg o w).1
    told state msg o w d c h =
        continue-keeps P _ (λ _. pure o) (k.status state msg w d c h) (λ _ v p. p)

    told_error :
        (msg : String) (w : World)
        → cr.deleting ≡ false
        → P w
        → P (update_state A cr "error" msg finished w).1
    unfolding string_eq
    told_error msg w d h =
        told "error" msg finished w d (λ e. absurd (differs "error" "complete" refl e)) h

    told_retrying :
        (msg : String) (w : World)
        → cr.deleting ≡ false
        → P w
        → P (update_state A cr "retrying" msg retry_delay w).1
    unfolding string_eq
    told_retrying msg w d h =
        told "retrying" msg retry_delay w d (λ e. absurd (differs "retrying" "complete" refl e)) h

    remove_finalizer-keeps :
        (w : World)
        → cr.deleting ≡ true
        → FailsInArgo cr.cluster_name w
        → P w
        → P (remove_finalizer A cr w).1
    unfolding remove_finalizer
    remove_finalizer-keeps w d n h =
        continue-keeps P _ (λ _. pure finished) (k.release w d n h) (λ _ v p. p)

    reconcile_delete-keeps : (w : World) → cr.deleting ≡ true → P w → P (reconcile_delete A cr w).1
    unfolding reconcile_delete
    reconcile_delete-keeps w d h =
        reads-keeps P (A.get_cluster (by_name cr.cluster_name)) _ _ w
          (λ e gone. remove_finalizer-keeps w d (e, gone) h)
          (λ server here.
            either-keeps_known P
              (A.delete_cluster (record { name = cr.cluster_name; server = server }) w) _ _
              (k.delete_cluster server w d here h) (λ e v p. p)
              (λ _ v done p. remove_finalizer-keeps v d (lawful.deleted _ w v done) p))

    add_cluster-keeps :
        (conf : A.Config) (clientset : A.Clientset) (w : World)
        → IsOpen cr
        → FailsInArgo cr.cluster_name w
        → Connects at cr conf clientset
        → P w
        → P (add_cluster A cr conf clientset w).1
    unfolding add_cluster
    add_cluster-keeps conf clientset w o n j h =
        either-keeps_known P (A.install_manager_rbac clientset w) _ _
          (k.install conf clientset w o n j h) (λ e v p. told_retrying _ v o.live p)
          (λ token v installed p.
            either-keeps_known P (A.create_cluster (registered_name cr) conf token v) _ _
              (k.create conf clientset token w v o n j installed p)
              (λ e u q. told_retrying _ u o.live q)
              (λ _ u done q.
                told "complete" _ finished u o.live
                  (λ _. inr (lawful.created (registered_name cr) conf token v u done)) q))

    read_kubeconfig-keeps :
        (secret : Map A.Bytes) (found : Option A.Bytes) (w : World)
        → A.get_secret cr.kubeconfig_secret_name at ≡ present secret
        → lookup cr.kubeconfig_secret_key_name secret ≡ found
        → IsOpen cr
        → FailsInArgo cr.cluster_name w
        → P w
        → P (read_kubeconfig A cr found w).1
    unfolding read_kubeconfig
    read_kubeconfig-keeps secret none w e l o n h = told_error _ w o.live h
    read_kubeconfig-keeps secret (some data_) w e l o n h =
        reads-keeps P (λ _. A.rest_config data_) _ _ w (λ e _. told_error _ w o.live h)
          (λ conf c.
            reads-keeps P (λ _. A.new_clientset conf) _ _ w (λ e _. told_error _ w o.live h)
              (λ clientset made.
                add_cluster-keeps conf clientset w o n (secret, (data_, e, l, c, made)) h))

    read_secret-keeps :
        (secret : Reply (Map A.Bytes)) (w : World)
        → A.get_secret cr.kubeconfig_secret_name at ≡ secret
        → IsOpen cr
        → FailsInArgo cr.cluster_name w
        → P w
        → P (read_secret A cr secret w).1
    unfolding read_secret
    read_secret-keeps missing w e o n h = told_retrying _ w o.live h
    read_secret-keeps (failed x) w e o n h = told_error _ w o.live h
    read_secret-keeps (present secret) w e o n h = read_kubeconfig-keeps secret _ w e refl o n h

    register-keeps : IsOpen cr → P at → P (register A cr at).1
    unfolding register
    register-keeps o h =
        reads-keeps P (A.get_cluster (by_name cr.cluster_name)) _ _ at
          (λ e gone.
            read_secret-keeps (A.get_secret cr.kubeconfig_secret_name at) at refl o (e, gone) h)
          (λ server here. told "complete" _ finished at o.live (λ _. inl (server, here)) h)

    reconcile_registration-keeps : P at → P (reconcile_registration A cr at).1
    unfolding reconcile_registration add_finalizer
    reconcile_registration-keeps h =
        if-keeps P cr.deleting _ _ at (λ d. reconcile_delete-keeps at d h)
          (λ d.
            if-keeps P (cr.state == "complete") _ _ at (λ _. h)
              (λ c.
                if-keeps P (cr.state == "error") _ _ at (λ _. h)
                  (λ f.
                    if-keeps P
                      (cr.kubeconfig_secret_name == "" || cr.kubeconfig_secret_key_name == "") _ _
                      at (λ _. told_error _ at d h)
                      (λ v.
                        if-keeps P (not (A.contains_finalizer cr.finalizers registration_finalizer))
                          _ _ at
                          (λ _.
                            continue-keeps P _ (λ _. pure finished) (k.hold at d h) (λ _ v p. p))
                          (λ x.
                            register-keeps
                              (record {
                                live = d;
                                incomplete = c;
                                faultless = f;
                                valid = v;
                                held = ground arith;
                              })
                              h)))))

  reconcile_read-keeps :
      IsLawful
      → (P : World → Type 0) (r : Reply Registration) (w : World)
      → ((cr : Registration) → r ≡ present cr → Keeps w cr P)
      → P w
      → P (reconcile_read A r w).1
  unfolding reconcile_read
  reconcile_read-keeps lawful P missing w keep h = h
  reconcile_read-keeps lawful P (failed e) w keep h = h
  reconcile_read-keeps lawful P (present cr) w keep h =
      reads-keeps P (A.new_patch_helper cr) _ _ w (λ _ _. h)
        (λ _ _. reconcile_registration-keeps lawful w cr P (keep cr refl) h)

  -- What the calls keep that may be made for a registration, a call of the reconciler keeps: it
  -- makes no other. So the finalizer is removed only from a registration that is to go and on whose
  -- cluster name Argo CD answers with an error, whatever its cause. The status is set to complete
  -- only where Argo CD answers with a cluster, of the cluster name or of the registered name. A
  -- cluster is added only for an open registration on whose cluster name Argo CD gave an error,
  -- under its registered name, with the configuration made from the kubeconfig in the registration's
  -- secret and the token that was just installed with it. Argo CD finds what was added and answers
  -- with an error on what was deleted.
  pub reconcile-Keeps :
      IsLawful
      → (P : World → Type 0) (w : World)
      → ((cr : Registration) → A.get_registration w ≡ present cr → Keeps w cr P)
      → P w
      → P (reconcile A w).1
  unfolding reconcile
  reconcile-Keeps lawful P w keep h = reconcile_read-keeps lawful P (A.get_registration w) w keep h
