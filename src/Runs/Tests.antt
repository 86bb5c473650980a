-- ===== src/Runs/Tests.antt =====
-- A registry with a run, and the theorems at it.
use shared_compute.Common.{◌+◌, ◌<◌, ◌≡◌, refl, String, List, [], ◌∷◌, arith}
use shared_compute.Common.Int64.{half}
use shared_compute.Common.Dict
use shared_compute.Runs.{RunResults, RunRegistry, new_run_registry, inflight_for}
use shared_compute.Runs.Inflight.{RunEvent, starts, ends, count_starts, running}

abbrev registry : RunRegistry String
registry = new_run_registry

abbrev finished : RunResults String
finished = record { result = "answers"; expires_at = 100 }

abbrev history : List RunEvent
history = starts "a" ∷ starts "b" ∷ starts "a" ∷ ends "b" ∷ ends "b" ∷ ends "a" ∷ []

none_running : (k : String) → inflight_for k registry + count_starts history < half
unfolding inflight_for Dict.get
none_running k = omega arith

one_left : running "a" 0 history ≡ 1
one_left = refl
