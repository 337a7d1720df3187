-- ===== src/Controllers/Watches.antt =====
-- The controllers that only watch: of app profiles, of Argo CD's applications and application sets,
-- and of profiles. They decide whether to reconcile everything.
-- controllers/appprofile_controller.go, application_controller.go, applicationset_controller.go,
-- profile_controller.go, and `Reconcile` of pkg/appprofile/reconcile.go.
pub mod Laws
mod Tests
use arlon.Prelude.{String, Bool, true, not, Option, none, some, ◌==◌, string_eq, if◌then◌else◌}
use arlon.Go.Exec.{Exec, pure, ◌>>◌}
use arlon.Go.Map.{StringMap, read}
use arlon.Go.Sets.{Sets}
use arlon.AppProfile.External.{Profile, Api}
use arlon.AppProfile.{reconcile_everything}
use arlon.Controllers.{Reply, present, missing, failed, Outcome, finished, requeued}

-- Whether the labels lack this type.
abbrev pub lacks_type : String → Option StringMap → Bool
lacks_type type none = true
lacks_type type (some labels) = not (read labels "arlon-type" == type)

module _ (S : Sets) (A : Api) where
  open A use {World}

  abbrev pub everything : Exec World Outcome
  everything = reconcile_everything S A >> pure finished

  -- `Reconcile` of pkg/appprofile, and of the app profile controller.
  unfoldable pub reconcile_profile : Reply Profile → Exec World Outcome
  reconcile_profile missing = everything
  reconcile_profile (failed e) = pure requeued
  reconcile_profile (present prof) = everything

  unfoldable pub reconcile_application : Reply (Option StringMap) → Exec World Outcome
  reconcile_application missing = pure finished
  reconcile_application (failed e) = pure requeued
  reconcile_application (present labels) =
      if lacks_type "cluster-app" labels then pure finished else everything

  unfoldable pub reconcile_application_set : Reply (Option StringMap) → Exec World Outcome
  reconcile_application_set missing = everything
  reconcile_application_set (failed e) = pure requeued
  reconcile_application_set (present labels) =
      if lacks_type "application" labels then pure finished else everything

-- What wakes a controller, with the answer to the look for the resource; of applications and
-- application sets only the labels matter.
pub data Event : Type 0 where
  profile : Reply Profile → Event
  application : Reply (Option StringMap) → Event
  application_set : Reply (Option StringMap) → Event

unfoldable pub handle : (S : Sets) (A : Api) → Event → Exec A.World Outcome
handle S A (profile r) = reconcile_profile S A r
handle S A (application r) = reconcile_application S A r
handle S A (application_set r) = reconcile_application_set S A r
