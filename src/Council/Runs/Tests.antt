-- ===== src/Council/Runs/Tests.antt =====
-- A database that is a list, and the reviews of three runs.
use shared_compute.Common.{arith, String, ℕ, ◌+◌, ◌≡◌, some, List, [], ◌∷◌, ◌++◌, ltb}
use shared_compute.Council.Ledger.{max_recent}
use shared_compute.Council.Runs.{
  Formats, RunStats, RunReview, Persister, Log, hydrate, needs_review, review_of,
}
use shared_compute.Council.Runs.Verdict.{verdict-review_of}
use shared_compute.Council.Runs.Kept.{last, reviews_of, review_runs, review_runs-hydrate}

abbrev formats : Formats ℕ
formats = record {
  over_tenth = λ a b. ltb b (a + a + a + a + a + a + a + a + a + a);
  overcharged = λ a b. ltb b a;
  items_failed = λ a b. "items failed";
  ms_per_item = λ a. "slow";
  exceeded = λ a b. "exceeded";
  digest = λ w v n a b c d. "hash";
}

abbrev stats : ℕ → ℕ → RunStats ℕ
stats ok failed = record {
  workload_id = "w";
  model = "m";
  items = ok + failed;
  ok = ok;
  failed = failed;
  fanout = 1;
  concurrency = 1;
  wall_ms = 1000;
  prompt_tokens = 10;
  completion_tokens = 10;
  quoted_usd = 5;
  charged_usd = 5;
}

abbrev runs : List (ℕ × RunStats ℕ)
runs = (9, stats 5 5) ∷ (12, stats 0 0) ∷ []

-- A database that holds one decision and one review, and keeps what is saved.
abbrev database : Persister String (RunReview ℕ) (List (RunReview ℕ))
database = record {
  save_decision = λ d db. db;
  load_decisions = λ n db. some ("decided" ∷ []);
  save_run_review = λ row db. db ++ row ∷ [];
  load_run_reviews = λ n db. some db;
}

abbrev stored : List (RunReview ℕ)
stored = review_of formats 3 (stats 10 0) ∷ []

review_runs-hydrate_example :
    let start : Log String (RunReview ℕ) (List (RunReview ℕ)) = record {
      recent = [];
      run_reviews = [];
      db = stored;
    } in
    let log = review_runs formats (some database) runs (hydrate (some database) start) in
    (log.run_reviews ≡ last max_recent (stored ++ reviews_of formats runs))
    × (log.recent ≡ "decided" ∷ [])
review_runs-hydrate_example = review_runs-hydrate formats database stored runs (omega arith)

-- Half of the items failed.
half_failed : (review_of formats 9 (stats 5 5)).verdict ≡ needs_review
half_failed = verdict-review_of formats 9 (stats 5 5)
