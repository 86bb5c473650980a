-- ===== src/Scheduler/Tests.antt =====
-- A request to two providers, and the theorems of the scheduler at it.
use mathlib.Core.List.{Perm}
use shared_compute.Common.{◌≡◌, ◌≢◌, ◌⊎◌, refl, String, some, List, [], ◌∷◌}
use shared_compute.Common.Sort.{Sorter, IsSorted, insertion_sorter, insertion_sort, insert}
use shared_compute.Registry.{Provider, snapshot, serves}
use shared_compute.Registry.Tests.{provider, two_providers}
use shared_compute.Scheduler.{
  Requirements, Result, ok, err, no_provider, tier_unmet, eligible, pick, less, class_rank,
  tier_rank,
}
use shared_compute.Scheduler.Choice.{able, reason, eligible_cases}

abbrev sorter : Sorter Provider
sorter = insertion_sorter Provider

abbrev for_model : String → String → Requirements
for_model model tier = record { model = model; min_tier = tier; min_context = 0; hw_class = "" }

-- The idle provider is picked, a tier that nobody has and a model that nobody serves are refused.
idle_first :
    pick sorter two_providers (for_model "n" "")
    ≡ ok (some (provider "q" "device_attested" 0 ("n" ∷ [])))
unfolding pick insertion_sort insert less snapshot serves tier_rank class_rank eligible
    shared_compute.Scheduler.scan shared_compute.Scheduler.visit
    shared_compute.Scheduler.lacks_resources
idle_first = refl

tier_refused : pick sorter two_providers (for_model "n" "confidential") ≡ err tier_unmet
unfolding pick snapshot serves tier_rank class_rank eligible shared_compute.Scheduler.scan
    shared_compute.Scheduler.visit shared_compute.Scheduler.why_none
tier_refused = refl

model_refused : pick sorter two_providers (for_model "x" "") ≡ err no_provider
unfolding pick snapshot serves tier_rank class_rank eligible shared_compute.Scheduler.scan
    shared_compute.Scheduler.visit shared_compute.Scheduler.why_none
model_refused = refl

eligible_cases_example :
    ((able sorter two_providers (for_model "n" "") ≡ [])
      × (eligible sorter two_providers (for_model "n" "")
          ≡ err (reason (for_model "n" "") (snapshot two_providers))))
    ⊎ ((cs : List Provider) × (eligible sorter two_providers (for_model "n" "") ≡ ok cs)
        × (cs ≢ [])
        × Perm cs (able sorter two_providers (for_model "n" ""))
        × IsSorted less cs)
eligible_cases_example = eligible_cases sorter two_providers (for_model "n" "")
