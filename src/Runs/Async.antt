-- ===== src/Runs/Async.antt =====
-- coordinator/internal/api/runs.go: an asynchronous run from its submission to its end, and the
-- handler of its results. Clock readings, the fresh id and secret, and whether the webhook was
-- delivered are arguments; so are what batch.Run gives for each chunk, whether it panics, and which of
-- the progress reports were saved.
pub mod Ends
pub mod Results
mod Tests
use shared_compute.Common.{
  ℕ, ◌+◌, ltb, String, Bool, true, false, not, ◌||◌, Option, none, some, List, [], ◌∷◌, length,
  str_eq, if◌then◌else◌,
}
use shared_compute.Common.Int64.{Int64, neg64}
use shared_compute.Store.{Mem, WorkloadRun}
use shared_compute.Store.Rows.{upsert_run, get_run}
use shared_compute.Runs
use shared_compute.Runs.{RunResults, RunRegistry, add_inflight, set_secret}
use shared_compute.Batch.{Summary}
use shared_compute.Runs.Execute.{
  Job, Outcome, Progress, Metering, meter_item, no_summary, run_chunks, execute_workload,
}

-- The store and the run registry.
pub record Server (Content : Type 0) : Type 0 where
  pub mem : Mem
  pub runs : RunRegistry (Outcome Content)

-- What the caller gives: the key, the model, the number of items, the webhook and the label.
pub record Submission : Type 0 where
  pub key_id : String
  pub model : String
  pub items : Int64
  pub webhook_url : String
  pub label : String

-- How executeWorkload ended: a panic, an error with its text, or an outcome.
pub data Execution (Content : Type 0) : Type 0 where
  panicked : Execution Content
  stopped : String → Execution Content
  completed : Outcome Content → Execution Content

-- The work of a run: what executeWorkload needs, whether batch.Run panics after these chunks, the text of
-- its error with the length in bytes and the first bytes of a text, and which reports are saved.
pub record Work (Content Float : Type 0) : Type 0 where
  pub metering : Metering Float
  pub job : Job
  pub chunks : List (Option (Summary Content))
  pub panics : Bool
  pub error_text : String
  pub byte_length : String → ℕ
  pub first_bytes : ℕ → String → String
  pub saves : List Bool

unfoldable pub with_saves : List Progress → List Bool → List (Progress × Bool)
with_saves [] saves = []
with_saves (p ∷ past) [] = (p, false) ∷ with_saves past []
with_saves (p ∷ past) (b ∷ saves) = (p, b) ∷ with_saves past saves

abbrev pub queued_run : String → ℕ → Job → Submission → WorkloadRun
queued_run id now job sub = record {
  id = id;
  key_id = sub.key_id;
  workload_id = job.quote_id;
  model = sub.model;
  status = "queued";
  total_items = sub.items;
  done_items = 0;
  ok_items = 0;
  failed_items = 0;
  quoted_micros = job.total_micros;
  charged_micros = 0;
  prompt_tokens = 0;
  completion_tokens = 0;
  wall_ms = 0;
  fanout = 0;
  webhook_url = sub.webhook_url;
  webhook_state = if not (str_eq sub.webhook_url "") then "pending" else "";
  label = sub.label;
  error = "";
  created_at = now;
  started_at = none;
  finished_at = none;
}

-- The answers of the results handler.
pub data Answer (Content : Type 0) : Type 0 where
  not_found : Answer Content
  not_finished : String → Answer Content
  run_failed : String → Answer Content
  results_expired : Answer Content
  results : RunResults (Outcome Content) → Answer Content

pub own_run : Option WorkloadRun → String → Option WorkloadRun
own_run none key_id = none
own_run (some run) key_id = if not (str_eq run.key_id key_id) then none else some run

module _ {Content : Type 0} where
  pub save_run : ℕ → WorkloadRun → Server Content → Server Content
  save_run now run s = record s { mem = upsert_run now run s.mem }

  -- `id` and `secret` are fresh.
  pub start_async_run :
      String
      → String
      → ℕ
      → Job
      → Submission
      → Server Content
      → Server Content × WorkloadRun × String
  unfolding save_run
  start_async_run id secret now job sub s =
      let run = queued_run id now job sub in
      let kept = if not (str_eq sub.webhook_url "") then set_secret id secret s.runs else s.runs in
      let saved = save_run now run (record s { runs = kept }) in
      (
        record saved { runs = add_inflight sub.key_id 1 saved.runs },
        run,
        if not (str_eq sub.webhook_url "") then secret else "",
      )

  -- The row and the server after the progress reports; the flag says whether a report was saved.
  pub report :
      ℕ → List (Progress × Bool) → WorkloadRun → Server Content → WorkloadRun × Server Content
  unfolding save_run
  report now [] run s = (run, s)
  report now ((p, saves) ∷ rest) run s =
      let next = record run { done_items = p.items; ok_items = p.ok; failed_items = p.failed } in
      report now rest next (if saves then save_run now next s else s)

  pub keep_results :
      ℕ → ℕ → WorkloadRun → Option (Outcome Content) → Server Content → Server Content
  keep_results fin ttl run none s = s
  keep_results fin ttl run (some out) s = record s {
    runs = Runs.put run.id (record { result = out; expires_at = fin + ttl }) fin s.runs;
  }

  -- `delivered` is whether the webhook was.
  pub finish_run :
      ℕ → ℕ → Bool → WorkloadRun → Option (Outcome Content) → Server Content → Server Content
  unfolding save_run keep_results
  finish_run fin ttl delivered run out s =
      let stamped = record run { finished_at = some fin } in
      let notified =
        if not (str_eq run.webhook_url "")
        then record stamped { webhook_state = if delivered then "delivered" else "failed" }
        else stamped in
      save_run fin notified (keep_results fin ttl run out s)

  pub succeeded : WorkloadRun → Outcome Content → WorkloadRun
  succeeded run out = record run {
    status = "succeeded";
    done_items = length out.summary.items;
    ok_items = out.summary.ok;
    failed_items = out.summary.failed;
    prompt_tokens = out.summary.prompt_tokens;
    completion_tokens = out.summary.completion_tokens;
    wall_ms = out.summary.wall_ms;
    fanout = out.summary.fanout;
    charged_micros = out.charged;
  }

  pub conclude : ℕ → ℕ → Bool → Execution Content → WorkloadRun → Server Content → Server Content
  unfolding finish_run succeeded
  conclude fin ttl delivered panicked run s =
      finish_run fin ttl delivered (record run { status = "failed"; error = "internal error" }) none
        s
  conclude fin ttl delivered (stopped text) run s =
      finish_run fin ttl delivered (record run { status = "failed"; error = text }) none s
  conclude fin ttl delivered (completed out) run s =
      finish_run fin ttl delivered (succeeded run out) (some out) s

  abbrev pub relay_err_message : {Float : Type 0} → Work Content Float → String
  relay_err_message work =
      if ltb 300 (work.byte_length work.error_text)
      then work.first_bytes 300 work.error_text
      else work.error_text

  abbrev pub ended_by :
      {Float : Type 0} → Work Content Float → Option (Outcome Content) → Execution Content
  ended_by work none = stopped (relay_err_message work)
  ended_by work (some out) = completed out

  -- executeWorkload on the store; a panic of batch.Run comes before the store is changed.
  pub run_work : {Float : Type 0} → Work Content Float → String → Mem → Mem × Execution Content
  run_work work key_id m =
      let (m', outcome, past) =
        execute_workload (meter_item work.metering key_id) work.job key_id work.chunks m in
      if work.panics then (m, panicked) else (m', ended_by work outcome)

  -- `started` and `fin` are the times of the start and the end.
  pub execute_async_run :
      {Float : Type 0}
      → ℕ
      → ℕ
      → ℕ
      → Bool
      → Work Content Float
      → WorkloadRun
      → Server Content
      → Server Content
  unfolding report conclude run_work
  execute_async_run started fin ttl delivered work run s =
      let running = record run { status = "running"; started_at = some started } in
      let (past, merged) = run_chunks work.chunks no_summary [] in
      let (run', s') =
        report started (with_saves past work.saves) running (save_run started running s) in
      let (m', execution) = run_work work run.key_id s'.mem in
      let ended = conclude fin ttl delivered execution run' (record s' { mem = m' }) in
      record ended { runs = add_inflight run.key_id (neg64 1) ended.runs }

  pub lookup_run : String → String → Server Content → Option WorkloadRun
  unfolding own_run
  lookup_run id key_id s = own_run (get_run s.mem id) key_id

  kept_answer : Option (RunResults (Outcome Content)) → Answer Content
  kept_answer none = results_expired
  kept_answer (some res) = results res

  answer_of : ℕ → Option WorkloadRun → Server Content → Server Content × Answer Content
  unfolding kept_answer
  answer_of now none s = (s, not_found)
  answer_of now (some run) s =
      let (rr, res) = Runs.get run.id now s.runs in
      if str_eq run.status "queued" || str_eq run.status "running"
      then (s, not_finished run.status)
      else if str_eq run.status "failed"
      then (s, run_failed run.error)
      else (record s { runs = rr }, kept_answer res)

  pub get_run_results : String → String → ℕ → Server Content → Server Content × Answer Content
  unfolding answer_of lookup_run
  get_run_results id key_id now s = answer_of now (lookup_run id key_id s) s
