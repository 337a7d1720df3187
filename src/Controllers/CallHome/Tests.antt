-- ===== src/Controllers/CallHome/Tests.antt =====
-- The controller of call home configurations over a configuration and a target secret in memory.
use mathlib.Core.Path.{subst}
use arlon.Prelude.{String, ◌≡◌, refl, ap, Option, none, some, [], ◌∷◌, arith, differs, string_eq}
use arlon.Go.Exec.{ok}
use arlon.Go.Map.{StringMap, lookup}
use arlon.Go.Strconv.{digit, format_uint}
use arlon.Controllers.{Reply, present, missing, failed, finished, retry_delay, either}
use arlon.Controllers.CallHome.External.{CallHomeConfig, Secret, Api}
use arlon.Controllers.CallHome.{
  find_secret, create_secret, use_secret, find_token, ensure_target, connect, read_secret,
  call_home, reconcile_config, reconcile_read, reconcile,
}
use arlon.Controllers.CallHome.Laws.{IsLawful, Keeps, reconcile_delivers}

record Store : Type 0 where
  config : Reply CallHomeConfig
  target : Option StringMap

is_there : Option StringMap → Reply (Unit {0})
is_there none = missing
is_there (some contents) = present tt

abbrev account_secret : Secret
account_secret = record {
  annotations = some (("kubernetes.io/service-account.name", "autoscaler") ∷ []);
  contents = ("token", "t0k3n") ∷ ("ca.crt", "certificate") ∷ [];
}

abbrev other_secret : Secret
other_secret = record { annotations = none; contents = [] }

abbrev api : Api
api = record {
  World = Store;
  Config = Unit;
  Clientset = Unit;
  get_config = λ w. w.config;
  update_status = λ c w. (ok tt, record w { config = present c });
  get_secret =
      λ _ _. present (record { annotations = none; contents = ("value", "kubeconfig") ∷ [] });
  get_service_account = λ _ _. present tt;
  list_secrets = λ _. ok (other_secret ∷ account_secret ∷ []);
  rest_config = λ _. ok tt;
  new_clientset = λ _. ok tt;
  get_target = λ _ _ _ w. is_there w.target;
  create_target = λ _ _ _ contents w. (ok tt, record w { target = some contents });
  serialize = λ cfg. ok cfg.current_context;
}

api_IsLawful : IsLawful api
unfolding is_there
api_IsLawful = record {
  created = λ clientset namespace name contents w w' done. ground (arith, done);
}

abbrev start : CallHomeConfig
start = record {
  namespace = "edge";
  service_account_name = "autoscaler";
  kubeconfig_secret_name = "edge-kubeconfig";
  kubeconfig_secret_key_name = "value";
  target_namespace = "kube-system";
  target_secret_name = "management";
  target_secret_key_name = "kubeconfig";
  management_cluster_url = "https://management";
  state = "";
  message = "";
}

abbrev before : Store
before = record { config = present start; target = none }

abbrev after : Store
after = record {
  config =
      present (record start { state = "complete"; message = "successfully created target secret" });
  target = some (("kubeconfig", "management") ∷ []);
}

run : reconcile api before ≡ (ok finished, after)
unfolding reconcile reconcile_read reconcile_config call_home read_secret connect ensure_target
    find_token find_secret use_secret create_secret either is_there lookup string_eq
run = refl

-- Without the secret of the account.
abbrev bare_api : Api
bare_api = record api { list_secrets = λ _. ok (other_secret ∷ []) }

abbrev waiting : Store
waiting = record before {
  config = present (record start {
    state = "retrying";
    message = "secret  containing service account token not found, retrying in 10 seconds";
  });
}

run_bare : reconcile bare_api before ≡ (ok retry_delay, waiting)
unfolding reconcile reconcile_read reconcile_config call_home read_secret connect ensure_target
    find_token find_secret use_secret create_secret either is_there lookup string_eq format_uint
    digit
run_bare = refl

state_of : Reply CallHomeConfig → String
state_of (present c) = c.state
state_of missing = ""
state_of (failed e) = ""

-- A status that says complete is true.
IsTruthful : Store → Type 0
unfolding state_of is_there
IsTruthful w = state_of w.config ≡ "complete" → is_there w.target ≡ present tt

start_Keeps : Keeps api before start IsTruthful
unfolding IsTruthful state_of is_there
start_Keeps = record {
  status = λ state msg w open_ known h e. (known e).2;
  create = λ clientset contents secrets w open_ gone joined account listed made h e. refl;
}

config_of : Reply CallHomeConfig → CallHomeConfig
config_of (present c) = c
config_of missing = start
config_of (failed e) = start

all_Keeps :
    (chc : CallHomeConfig) → api.get_config before ≡ present chc → Keeps api before chc IsTruthful
unfolding config_of
all_Keeps chc e = subst (λ c. Keeps api before c IsTruthful) (ap config_of e) start_Keeps

before-IsTruthful : IsTruthful before
unfolding IsTruthful state_of
before-IsTruthful e = absurd (differs "" "complete" (unfold string_eq in refl) e)

reconcile_delivers_example : IsTruthful (reconcile api before).1
reconcile_delivers_example =
    reconcile_delivers api api_IsLawful IsTruthful before all_Keeps before-IsTruthful
