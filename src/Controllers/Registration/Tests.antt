-- ===== src/Controllers/Registration/Tests.antt =====
-- The controller of cluster registrations over resources in memory.
use mathlib.Core.Path.{subst}
use arlon.Prelude.{
  String, ◌≡◌, refl, ap, inl, inr, true, false, List, [], ◌∷◌, ◌++◌, arith, elem, differs, ◌==◌,
  ==-refl, string_eq, if◌then◌else◌,
}
use arlon.Go.Exec.{Result, ok, err}
use arlon.Go.Map.{lookup}
use arlon.Controllers.{Reply, present, missing, failed, finished, either}
use arlon.Controllers.Registration.External.{Registration, Query, Api}
use arlon.Controllers.Registration.{
  registration_finalizer, add_cluster, read_kubeconfig, read_secret, register,
  reconcile_registration, reconcile_read, reconcile,
}
use arlon.Controllers.Registration.Laws.{InArgo, IsLawful, Keeps, reconcile-Keeps}

record Store : Type 0 where
  registration : Reply Registration
  known : List String

without : String → List String → List String
without name [] = []
without name (a ∷ known) = let rest = without name known in if a == name then rest else a ∷ rest

elem-without : (name : String) (known : List String) → elem name (without name known) ≡ false
unfolding without
elem-without name [] = refl
elem-without name (a ∷ known) = ground (arith, elem-without name known)

find : Query → Store → Result String
find q w = if elem q.name w.known then ok "https://server" else err "no such cluster"

abbrev api : Api
api = record {
  World = Store;
  Bytes = Unit;
  Config = Unit;
  Clientset = Unit;
  Token = Unit;
  get_registration = λ w. w.registration;
  new_patch_helper = λ _ _. ok tt;
  update_status = λ c w. (ok tt, record w { registration = present c });
  patch = λ _ c w. (ok tt, record w { registration = present c });
  get_cluster = find;
  delete_cluster = λ q w. (ok tt, record w { known = without q.name w.known });
  create_cluster = λ name _ _ w. (ok tt, record w { known = name ∷ w.known });
  get_secret = λ _ _. present (("value", tt) ∷ []);
  rest_config = λ _. ok tt;
  new_clientset = λ _. ok tt;
  install_manager_rbac = λ _ w. (ok tt, w);
  contains_finalizer = λ fs f. elem f fs;
  add_finalizer = λ fs f. if elem f fs then fs else fs ++ f ∷ [];
  remove_finalizer = λ _ _. [];
}

known_of_found : (name : String) (w : Store) → InArgo api name w → elem name w.known ≡ true
unfolding find
known_of_found name w (server, here) = ground arith

api_IsLawful : IsLawful api
unfolding find
api_IsLawful = record {
  created = λ name conf token w w' done. ("https://server", ground (arith, done, ==-refl name));
  deleted = λ q w w' done. ("no such cluster", ground (arith, done, elem-without q.name w.known));
}

abbrev start : Registration
start = record {
  name = "edge-registration";
  finalizers = registration_finalizer ∷ [];
  deleting = false;
  cluster_name = "edge";
  kubeconfig_secret_name = "edge-kubeconfig";
  kubeconfig_secret_key_name = "value";
  state = "";
  message = "";
}

abbrev open_world : Store
open_world = record { registration = present start; known = [] }

abbrev closed_world : Store
closed_world = record {
  registration =
      present
        (record start { state = "complete"; message = "successfully added cluster to argocd" });
  known = "edge" ∷ [];
}

run : reconcile api open_world ≡ (ok finished, closed_world)
unfolding reconcile reconcile_read reconcile_registration register read_secret read_kubeconfig
    add_cluster either find lookup string_eq
run = refl

state_of : Reply Registration → String
state_of (present c) = c.state
state_of missing = ""
state_of (failed e) = ""

-- A status that says complete is true.
IsTruthful : Store → Type 0
unfolding state_of
IsTruthful w = state_of w.registration ≡ "complete" → elem "edge" w.known ≡ true

start_Keeps : Keeps api open_world start IsTruthful
unfolding IsTruthful state_of find string_eq
start_Keeps = record {
  status = λ state msg w live known h e. elim (known e) [
    | inl here ↦ known_of_found "edge" w here
    | inr here ↦ known_of_found "edge" w here
  ];
  hold = λ w live h e. absurd (differs "" "complete" refl e);
  release = λ w gone unknown h e. absurd (ground arith);
  delete_cluster = λ server w gone known h e. absurd (ground arith);
  install = λ conf clientset w o unknown joined h e. h e;
  create = λ conf clientset token v w o unknown joined installed h e. refl;
}

registration_of : Reply Registration → Registration
registration_of (present c) = c
registration_of missing = start
registration_of (failed e) = start

open_world-IsTruthful : IsTruthful open_world
unfolding IsTruthful state_of
open_world-IsTruthful e = absurd (differs "" "complete" (unfold string_eq in refl) e)

all_Keeps :
    (cr : Registration)
    → api.get_registration open_world ≡ present cr
    → Keeps api open_world cr IsTruthful
unfolding registration_of
all_Keeps cr e = subst (λ c. Keeps api open_world c IsTruthful) (ap registration_of e) start_Keeps

reconcile-Keeps_example : IsTruthful (reconcile api open_world).1
reconcile-Keeps_example =
    reconcile-Keeps api api_IsLawful IsTruthful open_world all_Keeps open_world-IsTruthful
