-- ===== src/Council/Runs.antt =====
-- coordinator/internal/council/evaluate.go and persist.go: the review of an executed workload, the list
-- of the last fifty, and what a restart loads. Tests on floats, the formatted texts and recordHash are
-- parameters; so is the database of the persister, an interface whose implementation is SQL.
pub mod Kept
pub mod Verdict
mod Tests
use shared_compute.Common.{
  ℕ, ◌+◌, ◌-◌, ◌≡◌, refl, ◌∙◌, String, Bool, true, false, ◌&&◌, ◌||◌, Option, none, some, List, [],
  ◌∷◌, ◌++◌, length, drop, ltb, str_eq, if◌then◌else◌, Bool-cases, inl, inr, arith,
}
use shared_compute.Common.Int64.{Int64, add64, div64, lt64, le64}
use shared_compute.Council.{high, critical}
use shared_compute.Council.Ledger.{max_recent}
use shared_compute.Council.Seats.{low, medium}

pub record RunStats (Float : Type 0) : Type 0 where
  pub workload_id : String
  pub model : String
  pub items : Int64
  pub ok : Int64
  pub failed : Int64
  pub fanout : Int64
  pub concurrency : Int64
  pub wall_ms : Int64
  pub prompt_tokens : Int64
  pub completion_tokens : Int64
  pub quoted_usd : Float
  pub charged_usd : Float

pub record Finding : Type 0 where
  pub severity : String
  pub issue : String
  pub action : String

pub record RunReview (Float : Type 0) : Type 0 where
  pub workload_id : String
  pub model : String
  pub verdict : String
  pub findings : List Finding
  pub stats : RunStats Float
  pub audit_hash : String
  pub recorded_at : ℕ

-- Whether more than a tenth failed, whether a charge exceeds a quote, the texts, and the hash of the
-- review's fields.
pub record Formats (Float : Type 0) : Type 0 where
  pub over_tenth : Int64 → Int64 → Bool
  pub overcharged : Float → Float → Bool
  pub items_failed : Int64 → Int64 → String
  pub ms_per_item : Int64 → String
  pub exceeded : Float → Float → String
  pub digest : String → String → ℕ → Int64 → Int64 → Int64 → Int64 → String

abbrev pub clean : String
clean = "CLEAN"

abbrev pub needs_review : String
needs_review = "REVIEW"

-- One finding where its test holds.
abbrev pub finding_if : Bool → Finding → List Finding
finding_if test f = if test then f ∷ [] else []

-- The loop for the verdict.
unfoldable pub verdict_of : List Finding → String → String
verdict_of [] v = v
verdict_of (x ∷ xs) v =
    verdict_of xs (if str_eq x.severity high || str_eq x.severity critical then needs_review else v)

module _ {Float : Type 0} (formats : Formats Float) where
  abbrev pub total : RunStats Float → Int64
  total s = add64 s.ok s.failed

  unfoldable pub failed_severity : RunStats Float → String
  failed_severity s =
      if lt64 0 (total s) && formats.over_tenth s.failed (total s) then high else medium

  unfoldable pub failed_finding : RunStats Float → List Finding
  unfolding failed_severity
  failed_finding s = finding_if (lt64 0 s.failed) (record {
    severity = failed_severity s;
    issue = formats.items_failed s.failed (total s);
    action = "raise redundancy or add speculative straggler re-dispatch for this model class";
  })

  unfoldable pub single_finding : RunStats Float → List Finding
  single_finding s = finding_if (le64 s.fanout 1 && lt64 4 s.ok) (record {
    severity = low;
    issue = "the whole batch ran on a single provider";
    action = "recruit more supply so items run in parallel and wall time drops";
  })

  unfoldable pub slow_finding : RunStats Float → List Finding
  slow_finding s = finding_if (lt64 0 (total s) && lt64 4000 (div64 s.wall_ms (total s))) (record {
    severity = low;
    issue = formats.ms_per_item (div64 s.wall_ms (total s));
    action = "offer a faster model class or GPU-class providers for latency-sensitive callers";
  })

  unfoldable pub charge_finding : RunStats Float → List Finding
  charge_finding s = finding_if (formats.overcharged s.charged_usd s.quoted_usd) (record {
    severity = medium;
    issue = formats.exceeded s.charged_usd s.quoted_usd;
    action =
        "investigate the settlement path — the customer must never pay above the accepted quote";
  })

  unfoldable pub findings : RunStats Float → List Finding
  unfolding failed_finding single_finding slow_finding charge_finding
  findings s = failed_finding s ++ single_finding s ++ slow_finding s ++ charge_finding s

  -- The review that ReviewRun makes.
  unfoldable pub review_of : ℕ → RunStats Float → RunReview Float
  unfolding findings verdict_of
  review_of now s =
      let f = findings s in
      let verdict = verdict_of f clean in
      record {
        workload_id = s.workload_id;
        model = s.model;
        verdict = verdict;
        findings = f;
        stats = s;
        audit_hash =
            formats.digest s.workload_id verdict (length f) s.ok s.failed s.fanout s.wall_ms;
        recorded_at = now;
      }

-- The interface of persist.go, of decisions `Decision` and reviews `Row`. The code drops the errors of saving;
-- loading gives up to a number of rows, or an error.
pub record Persister (Decision Row Db : Type 0) : Type 0 where
  pub save_decision : Decision → Db → Db
  pub load_decisions : ℕ → Db → Option (List Decision)
  pub save_run_review : Row → Db → Db
  pub load_run_reviews : ℕ → Db → Option (List Row)

-- The decisions and the reviews in the process, and the database.
pub record Log (Decision Row Db : Type 0) : Type 0 where
  pub recent : List Decision
  pub run_reviews : List Row
  pub db : Db

unfoldable pub keep_last : {Row : Type 0} → List Row → List Row
keep_last rows = if ltb max_recent (length rows) then drop (length rows - max_recent) rows else rows

abbrev pub loaded_or : {Row : Type 0} → List Row → Option (List Row) → List Row
loaded_or rows none = rows
loaded_or rows (some loaded) = loaded

module _ {Decision Row Db : Type 0} where
  unfoldable pub save_row : Option (Persister Decision Row Db) → Row → Db → Db
  save_row none row db = db
  save_row (some p) row db = p.save_run_review row db

  -- The end of ReviewRun.
  unfoldable pub record_row :
      Option (Persister Decision Row Db) → Row → Log Decision Row Db → Log Decision Row Db
  unfolding keep_last save_row
  record_row persister row log = record log {
    run_reviews = keep_last (log.run_reviews ++ row ∷ []);
    db = save_row persister row log.db;
  }

  unfoldable pub hydrate :
      Option (Persister Decision Row Db) → Log Decision Row Db → Log Decision Row Db
  hydrate none log = log
  hydrate (some p) log = record log {
    recent = loaded_or log.recent (p.load_decisions max_recent log.db);
    run_reviews = loaded_or log.run_reviews (p.load_run_reviews max_recent log.db);
  }

unfoldable pub review_run :
    {Float Decision Db : Type 0}
    → Formats Float
    → Option (Persister Decision (RunReview Float) Db)
    → ℕ
    → RunStats Float
    → Log Decision (RunReview Float) Db
    → Log Decision (RunReview Float) Db
unfolding record_row review_of
review_run formats persister now s log = record_row persister (review_of formats now s) log
