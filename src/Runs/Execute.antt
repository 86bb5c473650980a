-- ===== src/Runs/Execute.antt =====
-- coordinator/internal/api/runs.go: executeWorkload. What batch.Run gives for each chunk is an argument,
-- `none` for an error; recordJob is that of the chat. The review of the run, which changes nothing here,
-- is left out.
pub mod Charge
use shared_compute.Common.{
  ℕ, String, Bool, true, false, not, Option, none, some, List, [], ◌∷◌, ◌++◌, length, ◌==◌, str_eq,
  if◌then◌else◌,
}
use shared_compute.Common.Int64.{Int64, neg64, lt64}
use shared_compute.Chat
use shared_compute.Chat.{record_job}
use shared_compute.Relay.{Result}
use shared_compute.Batch.{ItemResult, Summary, merge_summary}
use shared_compute.Store.{Mem}
use shared_compute.Store.Ledger.{add_credit}

-- What is read of an accepted quote.
pub record Job : Type 0 where
  pub quote_id : String
  pub total_micros : Int64

pub record Progress : Type 0 where
  pub items : Int64
  pub ok : Int64
  pub failed : Int64

pub record Outcome (Content : Type 0) : Type 0 where
  pub summary : Summary Content
  pub charged : Int64

pub debit : Job → String → Int64 → Mem → Mem
debit job key_id charge m =
    if lt64 0 charge
    then add_credit
        (record {
          key_id = key_id;
          delta_micros = neg64 charge;
          reason = "workload";
          stripe_ref = "";
          job_id = job.quote_id;
        })
        m
    else m

-- What recordJob takes beside an item: the server, the model and the factor of the price.
pub record Metering (Float : Type 0) : Type 0 where
  pub server : Chat.Server Float
  pub model : String
  pub price_mult : Float

module _ {Content : Type 0} where
  abbrev pub result_of : ItemResult Content → Result
  result_of it = record {
    usage = record {
      prompt_tokens = it.prompt_tokens;
      completion_tokens = it.completion_tokens;
      total_tokens = it.total_tokens;
    };
    finish_reason = it.finish_reason;
    provider_id = it.provider_id;
    provider_pk = it.provider_pk;
    trust_tier = it.trust_tier;
    job_id = it.job_id;
  }

  abbrev pub meter_item :
      {Float : Type 0} → Metering Float → String → ItemResult Content → Mem → Mem
  meter_item met key_id it m =
      (record_job met.server key_id met.model (result_of it) met.price_mult m).0

module _ {Content : Type 0} where
  abbrev pub no_summary : Summary Content
  no_summary = record {
    items = [];
    ok = 0;
    failed = 0;
    fanout = 0;
    providers = [];
    prompt_tokens = 0;
    completion_tokens = 0;
    concurrency = 0;
    wall_ms = 0;
  }

  abbrev pub progress_of : Summary Content → Progress
  progress_of s = record { items = length s.items; ok = s.ok; failed = s.failed }

  -- The summary so far with the largest wall time, and the calls of onProgress.
  pub run_chunks :
      List (Option (Summary Content))
      → Summary Content
      → List Progress
      → List Progress × Option (Summary Content)
  run_chunks [] merged past = (past, some merged)
  run_chunks (none ∷ rest) merged past = (past, none)
  run_chunks (some sum ∷ rest) merged past =
      let next = merge_summary merged sum (length merged.items) in
      let timed = record next {
        wall_ms = if lt64 merged.wall_ms sum.wall_ms then sum.wall_ms else merged.wall_ms;
      } in
      run_chunks rest timed (past ++ progress_of next ∷ [])

  pub record_items : (ItemResult Content → Mem → Mem) → List (ItemResult Content) → Mem → Mem
  record_items record_job [] m = m
  record_items record_job (it ∷ its) m =
      record_items record_job its (if not (str_eq it.err_code "") then m else record_job it m)

  unfoldable pub charge_of : Job → Summary Content → Int64
  charge_of job s = if s.ok == 0 then 0 else job.total_micros

  unfoldable pub settle :
      (ItemResult Content → Mem → Mem)
      → Job
      → String
      → Option (Summary Content)
      → Mem
      → Mem × Option (Outcome Content)
  unfolding record_items charge_of debit
  settle record_job job key_id none m = (m, none)
  settle record_job job key_id (some merged) m =
      let s = record merged { fanout = length merged.providers } in
      (
        debit job key_id (charge_of job s) (record_items record_job s.items m),
        some (record { summary = s; charged = charge_of job s }),
      )

  -- The outcome, `none` for an error, and the progress that was reported.
  unfoldable pub execute_workload :
      (ItemResult Content → Mem → Mem)
      → Job
      → String
      → List (Option (Summary Content))
      → Mem
      → Mem × Option (Outcome Content) × List Progress
  unfolding run_chunks settle
  execute_workload record_job job key_id runs m =
      let (past, merged) = run_chunks runs no_summary [] in
      let (m', outcome) = settle record_job job key_id merged m in (m', outcome, past)
