-- ===== src/Controllers/Watches/Tests.antt =====
-- An event over the resources in memory.
use arlon.Prelude.{◌≡◌, refl, ◌⊎◌, true, false, some, [], ◌∷◌, string_eq}
use arlon.Go.Exec.{ok}
use arlon.Go.Map.{lookup}
use arlon.Go.Sets.Lists.{list_sets, list_sets-IsLawful}
use arlon.AppProfile.Memory.{memory_api, memory_api-IsLawful, unmarshal-Decodes}
use arlon.AppProfile.Convergence.{Reconciled}
use arlon.AppProfile.Tests.{before, after, run, before_snapshot, before_IsOrderly}
use arlon.Controllers.{present, finished}
use arlon.Controllers.Watches.{reconcile_application_set, Event, application_set, handle}
use arlon.Controllers.Watches.Laws.{is_irrelevant, handle-Reconciled}

abbrev labelled : Event
labelled = application_set (present (some (("arlon-type", "application") ∷ [])))

handle_run : handle list_sets memory_api labelled before ≡ (ok finished, after)
unfolding handle reconcile_application_set lookup string_eq
handle_run = rw (run) refl

handle-Reconciled_example :
    ((is_irrelevant labelled ≡ true) × (after ≡ before))
    ⊎ ((is_irrelevant labelled ≡ false)
        × Reconciled list_sets list_sets-IsLawful memory_api before_snapshot after)
handle-Reconciled_example =
    handle-Reconciled list_sets list_sets-IsLawful memory_api memory_api-IsLawful unmarshal-Decodes
      labelled before_snapshot before_IsOrderly handle_run
