-- ===== src/Controllers/CallHome.antt =====
-- controllers/callhomeconfig_controller.go: a workload cluster gets a secret with a kubeconfig for
-- the management cluster, made from the token of a service account there.
pub mod External
pub mod Laws
mod Tests
use arlon.Prelude.{
  String, ◌<>◌, Bool, true, false, not, ◌&&◌, Option, none, some, List, [], ◌∷◌, ◌==◌, string_eq,
  if◌then◌else◌,
}
use arlon.Go.Exec.{Result, ok, err, Exec, pure, ◌>>◌, ◌>>=◌, reads}
use arlon.Go.Map.{Map, StringMap, lookup, read}
use arlon.Go.Strconv.{format_uint}
use arlon.Controllers.{
  Reply, present, missing, failed, Outcome, finished, requeued, retry_delay, attempt,
}
use External.{CallHomeConfig, Secret, ClusterEntry, ContextEntry, KubeConfig, Api}

-- Whether a secret is one of this service account.
abbrev pub belongs_to : String → Secret → Bool
belongs_to account secret = elim secret.annotations [
  | none ↦ false
  | some annotations ↦ read annotations "kubernetes.io/service-account.name" == account
]

unfoldable pub find_secret : String → List Secret → Option Secret
find_secret account [] = none
find_secret account (secret ∷ secrets) =
    if belongs_to account secret then some secret else find_secret account secrets

abbrev pub kubeconfig_of : String → String → String → KubeConfig
kubeconfig_of url ca token = record {
  clusters = ("management", record { server = url; certificate_authority_data = ca }) ∷ [];
  auth_infos = ("sa", token) ∷ [];
  contexts = ("management", record { cluster = "management"; auth_info = "sa" }) ∷ [];
  current_context = "management";
}

module _ (A : Api) where
  open A use {World}

  abbrev pub update_state : CallHomeConfig → String → String → Outcome → Exec World Outcome
  update_state chc state msg outcome =
      if chc.state == state && chc.message == msg
      then pure outcome
      else A.update_status (record chc { state = state; message = msg }) >> pure outcome

  abbrev pub retry_later : CallHomeConfig → String → String → String → Exec World Outcome
  retry_later chc resource_type resource_name description =
      update_state chc "retrying"
        (resource_type
          <> (" "
              <> (resource_name
                  <> (" "
                      <> (description <> (", retrying in " <> (format_uint 10 <> " seconds")))))))
        retry_delay

  unfoldable pub create_secret : CallHomeConfig → A.Clientset → KubeConfig → Exec World Outcome
  create_secret chc clientset cfg =
      attempt (reads (λ _. A.serialize cfg))
        (λ e. update_state chc "error" ("failed to serialize kubeconfig: " <> e) finished)
        (λ kubeconfig_data.
          attempt
            (A.create_target clientset chc.target_namespace chc.target_secret_name
              ((chc.target_secret_key_name, kubeconfig_data) ∷ []))
            (λ e.
              retry_later chc "target secret" chc.target_secret_name
                ("could not be created: " <> e))
            (λ _. update_state chc "complete" "successfully created target secret" finished))

  -- The token again, behind the certificate.
  abbrev pub with_token : CallHomeConfig → A.Clientset → String → Option String → Exec World Outcome
  with_token chc clientset ca none =
      update_state chc "error" "token secret does not have token" finished
  with_token chc clientset ca (some token) =
      create_secret chc clientset (kubeconfig_of chc.management_cluster_url ca token)

  abbrev pub with_certificate :
      CallHomeConfig → A.Clientset → Option String → Option String → Exec World Outcome
  with_certificate chc clientset token none =
      update_state chc "error" "token secret does not have ca.crt" finished
  with_certificate chc clientset token (some ca) = with_token chc clientset ca token

  unfoldable pub use_secret : CallHomeConfig → A.Clientset → Option Secret → Exec World Outcome
  use_secret chc clientset none =
      retry_later chc "secret" "" "containing service account token not found"
  use_secret chc clientset (some secret) =
      if read secret.contents "token" == ""
      then retry_later chc "secret" chc.service_account_name "does not have a token"
      else with_certificate chc clientset (lookup "token" secret.contents)
          (lookup "ca.crt" secret.contents)

  abbrev pub choose_secret : CallHomeConfig → A.Clientset → List Secret → Exec World Outcome
  choose_secret chc clientset [] =
      retry_later chc "secrets" chc.namespace "no secrets in the namespace"
  choose_secret chc clientset (s ∷ secrets) =
      use_secret chc clientset (find_secret chc.service_account_name (s ∷ secrets))

  unfoldable pub find_token : CallHomeConfig → A.Clientset → Reply (Unit {0}) → Exec World Outcome
  find_token chc clientset missing =
      retry_later chc "serviceaccount" chc.service_account_name "does not exist yet"
  find_token chc clientset (failed e) =
      update_state chc "error" ("unexpected error getting service account: " <> e) finished
  find_token chc clientset (present _) =
      attempt (reads A.list_secrets)
        (λ _. retry_later chc "namespace" chc.namespace "cannot list secrets")
        (choose_secret chc clientset)

  unfoldable pub ensure_target :
      CallHomeConfig → A.Clientset → Reply (Unit {0}) → Exec World Outcome
  ensure_target chc clientset (present _) =
      update_state chc "complete" "target secret already exists" finished
  ensure_target chc clientset (failed e) =
      retry_later chc "target secret" chc.target_secret_name
        "could not be queried, workload cluster probably still unavailable"
  ensure_target chc clientset missing =
      λ w. find_token chc clientset (A.get_service_account chc.service_account_name w) w

  abbrev pub look_for_target : CallHomeConfig → A.Clientset → Exec World Outcome
  look_for_target chc clientset w =
      ensure_target chc clientset
        (A.get_target clientset chc.target_namespace chc.target_secret_name w) w

  unfoldable pub connect : CallHomeConfig → Option String → Exec World Outcome
  connect chc none =
      update_state chc "error"
        ("secret subkey " <> (chc.kubeconfig_secret_key_name <> " does not exist")) finished
  connect chc (some kubeconfig) =
      attempt (reads (λ _. A.rest_config kubeconfig))
        (λ e. update_state chc "error" ("failed to read kubeconfig from secret: " <> e) finished)
        (λ conf.
          attempt (reads (λ _. A.new_clientset conf))
            (λ e. update_state chc "error" ("failed to get clientset from config: " <> e) finished)
            (look_for_target chc))

  unfoldable pub read_secret : CallHomeConfig → Reply Secret → Exec World Outcome
  read_secret chc missing =
      retry_later chc "kubeconfig secret" chc.kubeconfig_secret_name "does not exist yet"
  read_secret chc (failed e) = update_state chc "error" ("failed to read secret: " <> e) finished
  read_secret chc (present secret) =
      connect chc (lookup chc.kubeconfig_secret_key_name secret.contents)

  unfoldable pub call_home : CallHomeConfig → Exec World Outcome
  call_home chc w = read_secret chc (A.get_secret chc.kubeconfig_secret_name w) w

  unfoldable pub reconcile_config : CallHomeConfig → Exec World Outcome
  reconcile_config chc =
      if chc.state == "complete"
      then pure finished
      else if chc.state == "error"
      then pure finished
      else call_home chc

  unfoldable pub reconcile_read : Reply CallHomeConfig → Exec World Outcome
  reconcile_read missing = pure finished
  reconcile_read (failed e) = pure requeued
  reconcile_read (present chc) = reconcile_config chc

  unfoldable pub reconcile : Exec World Outcome
  reconcile w = reconcile_read (A.get_config w) w
