-- ===== src/Batch/Tests.antt =====
-- A batch over two providers, and the theorems of the batch at it.
use shared_compute.Common.{ℕ, ◌≡◌, refl, String, List, [], ◌∷◌, ◌++◌}
use shared_compute.Batch.{Load, ItemResult}
use shared_compute.Batch.Totals.{total}

abbrev load : Load
load = record { inflight = ("p", 1) ∷ []; assigned = ("p", 3) ∷ ("q", 1) ∷ [] }

abbrev item : String → ℕ → ItemResult String
item err tokens = record {
  index = 0;
  content = "text";
  prompt_tokens = 4;
  completion_tokens = tokens;
  provider_id = "p";
  provider_pk = "pk";
  trust_tier = "community";
  job_id = "j";
  total_tokens = 9;
  finish_reason = "stop";
  err_code = err;
}

abbrev firsts : List (ItemResult String)
firsts = item "" 10 ∷ item "deadline" 0 ∷ []

abbrev seconds : List (ItemResult String)
seconds = item "" 30 ∷ []

two_ok : total (λ (r : ItemResult String). 1) (firsts ++ seconds) ≡ 2
two_ok = refl

abbrev texts : List String
texts = "a" ∷ "b" ∷ "c" ∷ []
