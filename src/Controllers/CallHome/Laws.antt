-- ===== src/Controllers/CallHome/Laws.antt =====
-- Which calls the controller of call home configurations makes, and in which worlds.
use arlon.Prelude.{
  String, ◌≡◌, refl, inl, inr, true, false, ◌&&◌, Option, none, some, List, [], ◌∷◌, arith, ◌==◌,
  string_eq, Bool-cases, Option-cases, differs,
}
use arlon.Go.Exec.{ok, pure, continue-keeps}
use arlon.Go.Map.{StringMap, lookup, read}
use arlon.Controllers.{
  Reply, present, missing, failed, Outcome, finished, retry_delay, if-keeps, reads-keeps,
  either-keeps_known,
}
use arlon.Controllers.CallHome.External.{CallHomeConfig, Secret, Api}
use arlon.Controllers.CallHome.{
  belongs_to, find_secret, kubeconfig_of, update_state, retry_later, create_secret, use_secret,
  choose_secret, find_token, ensure_target, connect, read_secret, call_home, reconcile_config,
  reconcile_read, reconcile,
}

find_secret-belongs :
    (account : String) (secrets : List Secret) (secret : Secret)
    → find_secret account secrets ≡ some secret
    → belongs_to account secret ≡ true
unfolding find_secret
find_secret-belongs account [] secret e = cc
find_secret-belongs account (s ∷ secrets) secret e = elim (Bool-cases (belongs_to account s)) [
  | inl b ↦ ground (arith, b, e)
  | inr b ↦ find_secret-belongs account secrets secret (rw (find_secret, b) at e)
]

module _ (A : Api) where
  open A use {World}

  -- The client of the workload cluster: made from the kubeconfig that the configuration's secret
  -- holds, under the configuration's key, in the world `at`.
  abbrev pub Connects : World → CallHomeConfig → A.Clientset → Type 0
  Connects at chc clientset =
      (secret : Secret) × ((kubeconfig : String) × ((conf : A.Config) × (A.get_secret
              chc.kubeconfig_secret_name at
            ≡ present secret)
          × (lookup chc.kubeconfig_secret_key_name secret.contents ≡ some kubeconfig)
          × (A.rest_config kubeconfig ≡ ok conf)
          × (A.new_clientset conf ≡ ok clientset)))

  -- The workload cluster holds the target secret.
  abbrev pub HasTarget : World → CallHomeConfig → World → Type 0
  HasTarget at chc w =
      (clientset : A.Clientset) × Connects at chc clientset
      × (A.get_target clientset chc.target_namespace chc.target_secret_name w ≡ present tt)

  -- What the controller relies on of Kubernetes: a secret that was created is found.
  pub record IsLawful : Type 0 where
    pub created :
        (clientset : A.Clientset) (namespace name : String) (contents : StringMap) (w w' : World)
        → A.create_target clientset namespace name contents w ≡ (ok tt, w')
        → A.get_target clientset namespace name w' ≡ present tt

  -- The contents are a kubeconfig for the management cluster, made from one of the listed secrets
  -- that belongs to the service account and that holds a token.
  pub record IsKubeconfig (chc : CallHomeConfig) (secrets : List Secret) (contents : StringMap)
      : Type 0 where
    pub secret : Secret
    pub chosen : find_secret chc.service_account_name secrets ≡ some secret
    pub belongs : belongs_to chc.service_account_name secret ≡ true
    pub token : String
    pub ca : String
    pub has_token : lookup "token" secret.contents ≡ some token
    pub filled : (token == "") ≡ false
    pub has_ca : lookup "ca.crt" secret.contents ≡ some ca
    pub text : String
    pub serialized : A.serialize (kubeconfig_of chc.management_cluster_url ca token) ≡ ok text
    pub only : contents ≡ (chc.target_secret_key_name, text) ∷ []

  -- A predicate that the calls keep which may be made for a configuration, each with what has to be
  -- true of the world then; `at` is the world of the start.
  pub record Keeps (at : World) (chc : CallHomeConfig) (P : World → Type 0) : Type 0 where
    pub status :
        (state msg : String) (w : World)
        → ((chc.state == "complete") ≡ false) × ((chc.state == "error") ≡ false)
        → (state ≡ "complete" → HasTarget at chc w)
        → P w
        → P (A.update_status (record chc { state = state; message = msg }) w).1
    pub create :
        (clientset : A.Clientset) (contents : StringMap) (secrets : List Secret) (w : World)
        → ((chc.state == "complete") ≡ false) × ((chc.state == "error") ≡ false)
        → A.get_target clientset chc.target_namespace chc.target_secret_name w ≡ missing
        → Connects at chc clientset
        → A.get_service_account chc.service_account_name w ≡ present tt
        → A.list_secrets w ≡ ok secrets
        → IsKubeconfig chc secrets contents
        → P w
        → P (A.create_target clientset chc.target_namespace chc.target_secret_name contents w).1

  abbrev pub IsOpen : CallHomeConfig → Type 0
  IsOpen chc = ((chc.state == "complete") ≡ false) × ((chc.state == "error") ≡ false)

  module _ (lawful : IsLawful) (at : World) (chc : CallHomeConfig) (P : World → Type 0)
      (k : Keeps at chc P) (o : IsOpen chc) where
    told :
        (state msg : String) (outcome : Outcome) (w : World)
        → (state ≡ "complete" → HasTarget at chc w)
        → P w
        → P (update_state A chc state msg outcome w).1
    told state msg outcome w c h =
        if-keeps P (chc.state == state && chc.message == msg) _ _ w (λ _. h)
          (λ _. continue-keeps P _ (λ _. pure outcome) (k.status state msg w o c h) (λ _ v p. p))

    told_error : (msg : String) (w : World) → P w → P (update_state A chc "error" msg finished w).1
    unfolding string_eq
    told_error msg w h =
        told "error" msg finished w (λ e. absurd (differs "error" "complete" refl e)) h

    later : (kind name why : String) (w : World) → P w → P (retry_later A chc kind name why w).1
    unfolding string_eq
    later kind name why w h =
        told "retrying" _ retry_delay w (λ e. absurd (differs "retrying" "complete" refl e)) h

    module _ (clientset : A.Clientset) (joined : Connects at chc clientset) where
      create_secret-keeps :
          (secrets : List Secret) (secret : Secret) (token ca : String) (w : World)
          → A.get_target clientset chc.target_namespace chc.target_secret_name w ≡ missing
          → A.get_service_account chc.service_account_name w ≡ present tt
          → A.list_secrets w ≡ ok secrets
          → find_secret chc.service_account_name secrets ≡ some secret
          → lookup "token" secret.contents ≡ some token
          → (token == "") ≡ false
          → lookup "ca.crt" secret.contents ≡ some ca
          → P w
          → P
              (create_secret A chc clientset
                (kubeconfig_of chc.management_cluster_url ca token)
                w).1
      unfolding create_secret
      create_secret-keeps secrets secret token ca w gone account listed chosen t filled c h =
          reads-keeps P (λ _. A.serialize (kubeconfig_of chc.management_cluster_url ca token)) _ _ w
            (λ e _. told_error _ w h)
            (λ text written.
              let contents : StringMap = (chc.target_secret_key_name, text) ∷ [] in
              either-keeps_known P
                (A.create_target clientset chc.target_namespace chc.target_secret_name contents w) _
                _
                (k.create clientset contents secrets w o gone joined account listed
                  (record {
                    secret = secret;
                    chosen = chosen;
                    belongs = find_secret-belongs chc.service_account_name secrets secret chosen;
                    token = token;
                    ca = ca;
                    has_token = t;
                    filled = filled;
                    has_ca = c;
                    text = text;
                    serialized = written;
                    only = refl;
                  })
                  h)
                (λ e v p. later _ _ _ v p)
                (λ _ v done p.
                  told "complete" _ finished v
                    (λ _. (clientset, joined, lawful.created clientset _ _ contents w v done)) p))

      use_secret-keeps :
          (secrets : List Secret) (found : Option Secret) (w : World)
          → A.get_target clientset chc.target_namespace chc.target_secret_name w ≡ missing
          → A.get_service_account chc.service_account_name w ≡ present tt
          → A.list_secrets w ≡ ok secrets
          → find_secret chc.service_account_name secrets ≡ found
          → P w
          → P (use_secret A chc clientset found w).1
      unfolding use_secret
      use_secret-keeps secrets none w gone account listed chosen h = later _ _ _ w h
      use_secret-keeps secrets (some secret) w gone account listed chosen h =
          if-keeps P (read secret.contents "token" == "") _ _ w (λ _. later _ _ _ w h)
            (λ filled. elim (Option-cases (lookup "token" secret.contents)) [
              | inl t ↦ absurd (ground (arith, t, filled))
              | inr (token, t) ↦ elim (Option-cases (lookup "ca.crt" secret.contents)) [
                | inl c ↦ rw (c) (told_error _ w h)
                | inr (ca, c) ↦
                    rw (c, t)
                      (create_secret-keeps secrets secret token ca w gone account listed chosen t
                        (rw t at filled) c h)
              ]
            ])

      choose_secret-keeps :
          (secrets : List Secret) (w : World)
          → A.get_target clientset chc.target_namespace chc.target_secret_name w ≡ missing
          → A.get_service_account chc.service_account_name w ≡ present tt
          → A.list_secrets w ≡ ok secrets
          → P w
          → P (choose_secret A chc clientset secrets w).1
      choose_secret-keeps [] w gone account listed h = later _ _ _ w h
      choose_secret-keeps (s ∷ secrets) w gone account listed h =
          use_secret-keeps (s ∷ secrets) _ w gone account listed refl h

      find_token-keeps :
          (account : Reply (Unit {0})) (w : World)
          → A.get_service_account chc.service_account_name w ≡ account
          → A.get_target clientset chc.target_namespace chc.target_secret_name w ≡ missing
          → P w
          → P (find_token A chc clientset account w).1
      unfolding find_token
      find_token-keeps missing w e gone h = later _ _ _ w h
      find_token-keeps (failed x) w e gone h = told_error _ w h
      find_token-keeps (present tt) w e gone h =
          reads-keeps P A.list_secrets _ _ w (λ _ _. later _ _ _ w h)
            (λ secrets listed. choose_secret-keeps secrets w gone e listed h)

      ensure_target-keeps :
          (target : Reply (Unit {0})) (w : World)
          → A.get_target clientset chc.target_namespace chc.target_secret_name w ≡ target
          → P w
          → P (ensure_target A chc clientset target w).1
      unfolding ensure_target
      ensure_target-keeps (present tt) w here h =
          told "complete" _ finished w (λ _. (clientset, joined, here)) h
      ensure_target-keeps (failed e) w here h = later _ _ _ w h
      ensure_target-keeps missing w gone h = find_token-keeps _ w refl gone h

    connect-keeps :
        (secret : Secret) (kubeconfig : Option String) (w : World)
        → A.get_secret chc.kubeconfig_secret_name at ≡ present secret
        → lookup chc.kubeconfig_secret_key_name secret.contents ≡ kubeconfig
        → P w
        → P (connect A chc kubeconfig w).1
    unfolding connect
    connect-keeps secret none w e l h = told_error _ w h
    connect-keeps secret (some kubeconfig) w e l h =
        reads-keeps P (λ _. A.rest_config kubeconfig) _ _ w (λ e _. told_error _ w h)
          (λ conf c.
            reads-keeps P (λ _. A.new_clientset conf) _ _ w (λ e _. told_error _ w h)
              (λ clientset n.
                ensure_target-keeps clientset (secret, (kubeconfig, (conf, e, l, c, n))) _ w refl
                  h))

    read_secret-keeps :
        (secret : Reply Secret) (w : World)
        → A.get_secret chc.kubeconfig_secret_name at ≡ secret
        → P w
        → P (read_secret A chc secret w).1
    unfolding read_secret
    read_secret-keeps missing w e h = later _ _ _ w h
    read_secret-keeps (failed x) w e h = told_error _ w h
    read_secret-keeps (present secret) w e h = connect-keeps secret _ w e refl h

  reconcile_read-keeps :
      IsLawful
      → (P : World → Type 0) (r : Reply CallHomeConfig) (w : World)
      → ((chc : CallHomeConfig) → r ≡ present chc → Keeps w chc P)
      → P w
      → P (reconcile_read A r w).1
  unfolding reconcile_read reconcile_config call_home
  reconcile_read-keeps lawful P missing w keep h = h
  reconcile_read-keeps lawful P (failed e) w keep h = h
  reconcile_read-keeps lawful P (present chc) w keep h =
      if-keeps P (chc.state == "complete") _ _ w (λ _. h)
        (λ c.
          if-keeps P (chc.state == "error") _ _ w (λ _. h)
            (λ e. read_secret-keeps lawful w chc P (keep chc refl) (c, e) _ w refl h))

  -- What the calls keep that may be made for a configuration, a call of the reconciler keeps: it
  -- makes no other. So the status is set to complete only where the workload cluster holds the
  -- target secret, as told by a client that is made from the kubeconfig in the configuration's
  -- secret at the start. The target secret is created, through such a client, only where there is
  -- none and where the service account exists, with a kubeconfig made from a listed secret of the
  -- service account that holds a token and a certificate. A configuration that is complete or in
  -- error is left alone. A secret that was created is found.
  pub reconcile_delivers :
      IsLawful
      → (P : World → Type 0) (w : World)
      → ((chc : CallHomeConfig) → A.get_config w ≡ present chc → Keeps w chc P)
      → P w
      → P (reconcile A w).1
  unfolding reconcile
  reconcile_delivers lawful P w keep h = reconcile_read-keeps lawful P (A.get_config w) w keep h
