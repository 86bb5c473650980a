-- ===== src/Runs/Async/Ends.antt =====
-- A run that was started ends, however its execution ends, and its key gets its place back.
use shared_compute.Common.{
  ℕ, suc, ◌<◌, ◌≡◌, refl, ap, subst, ◌∙◌, String, Bool, true, false, Option, none, some, List, [],
  ◌∷◌, ◌==◌, str_eq, eq_refl, if◌then◌else◌, Bool-cases, Option-cases, inl, inr, ltb, length, ◌||◌,
  arith,
}
use shared_compute.Common.Int64.{Int64, neg64, half}
use shared_compute.Common.Dict.{Dict, get-put}
use shared_compute.Store.{Mem, WorkloadRun}
use shared_compute.Store.Rows.{upsert_run, get_run}
use shared_compute.Runs
use shared_compute.Runs.{RunResults, RunRegistry, inflight_for, add_inflight, set_secret, gc_loop}
use shared_compute.Runs.Inflight.{inflight-restored}
use shared_compute.Batch.{Summary}
use shared_compute.Runs.Execute.{
  Job, Outcome, Progress, no_summary, run_chunks, execute_workload, settle, charge_of,
}
use shared_compute.Runs.Execute.Charge.{any_error, run_chunks_lem}
use shared_compute.Runs.Async.{
  Server, Submission, Execution, panicked, stopped, completed, save_run, start_async_run, report,
  keep_results, finish_run, succeeded, conclude, execute_async_run, Work, with_saves, run_work,
  ended_by,
}

-- The row of a run that has ended.
pub record IsEnded {Content : Type 0} (s : Server Content) (id key_id status error : String)
    (fin : ℕ) : Type 0 where
  pub row : WorkloadRun
  pub stored : get_run s.mem id ≡ some row
  pub id_of : row.id ≡ id
  pub owner : row.key_id ≡ key_id
  pub state : row.status ≡ status
  pub text : row.error ≡ error
  pub finished : row.finished_at ≡ some fin

module _ {Content : Type 0} where
  save_run-IsEnded :
      (fin : ℕ) (run : WorkloadRun) (s : Server Content)
      → run.finished_at ≡ some fin
      → IsEnded (save_run fin run s) run.id run.key_id run.status run.error fin
  unfolding save_run upsert_run get_run
  save_run-IsEnded fin run s f = record {
    row = record run { created_at = if run.created_at == 0 then fin else run.created_at };
    stored = rw (get-put, eq_refl run.id) refl;
    id_of = refl;
    owner = refl;
    state = refl;
    text = refl;
    finished = f;
  }

  finish_run-IsEnded :
      (fin ttl : ℕ) (delivered : Bool) (run : WorkloadRun) (out : Option (Outcome Content))
      (s : Server Content)
      → IsEnded (finish_run fin ttl delivered run out s) run.id run.key_id run.status run.error fin
  unfolding finish_run
  finish_run-IsEnded fin ttl delivered run out s = elim (Bool-cases (str_eq run.webhook_url "")) [
    | inl e ↦ rw e (save_run-IsEnded fin (record run { finished_at = some fin }) _ refl)
    | inr e ↦ rw e (
        save_run-IsEnded fin
          (record run {
            finished_at = some fin;
            webhook_state = if delivered then "delivered" else "failed";
          })
          _ refl)
  ]

  -- How an execution ends a run whose error is empty.
  abbrev pub status_of : Execution Content → String
  status_of panicked = "failed"
  status_of (stopped text) = "failed"
  status_of (completed out) = "succeeded"

  abbrev pub error_of : Execution Content → String
  error_of panicked = "internal error"
  error_of (stopped text) = text
  error_of (completed out) = ""

  conclude-IsEnded :
      (fin ttl : ℕ) (delivered : Bool) (execution : Execution Content) (run : WorkloadRun)
      (s : Server Content)
      → run.error ≡ ""
      → IsEnded
          (conclude fin ttl delivered execution run s)
          run.id
          run.key_id
          (status_of execution)
          (error_of execution)
          fin
  unfolding conclude succeeded
  conclude-IsEnded fin ttl delivered panicked run s e =
      finish_run-IsEnded fin ttl delivered
        (record run { status = "failed"; error = "internal error" }) none s
  conclude-IsEnded fin ttl delivered (stopped text) run s e =
      finish_run-IsEnded fin ttl delivered (record run { status = "failed"; error = text }) none s
  conclude-IsEnded fin ttl delivered (completed out) run s e =
      subst
        (λ x.
          IsEnded (finish_run fin ttl delivered (succeeded run out) (some out) s) run.id run.key_id
            "succeeded" x fin)
        e (finish_run-IsEnded fin ttl delivered (succeeded run out) (some out) s)

  pub report-keeps :
      (now : ℕ) (progress : List (Progress × Bool)) (run : WorkloadRun) (s : Server Content)
      → let (r, t) = report now progress run s in
        (r.id ≡ run.id) × (r.key_id ≡ run.key_id) × (r.error ≡ run.error) × (t.runs ≡ s.runs)
  unfolding report save_run
  report-keeps now [] run s = (refl, refl, refl, refl)
  report-keeps now ((p, true) ∷ rest) run s = report-keeps now rest _ _
  report-keeps now ((p, false) ∷ rest) run s = report-keeps now rest _ _

  -- The counts of two registries agree.
  abbrev SameCounts : RunRegistry (Outcome Content) → RunRegistry (Outcome Content) → Type 0
  SameCounts rr rr' = rr.inflight ≡ rr'.inflight

  inflight-gc_loop :
      (now : ℕ) (es : Dict (RunResults (Outcome Content))) (rr : RunRegistry (Outcome Content))
      → SameCounts (gc_loop now es rr) rr
  unfolding gc_loop
  inflight-gc_loop now [] rr = refl
  inflight-gc_loop now ((id, res) ∷ rest) rr = elim (Bool-cases (ltb res.expires_at now)) [
    | inl e ↦ rw (gc_loop, e) (inflight-gc_loop now rest _)
    | inr e ↦ rw (gc_loop, e) (inflight-gc_loop now rest rr)
  ]

  inflight-conclude :
      (fin ttl : ℕ) (delivered : Bool) (execution : Execution Content) (run : WorkloadRun)
      (s : Server Content)
      → SameCounts (conclude fin ttl delivered execution run s).runs s.runs
  unfolding conclude finish_run save_run keep_results Runs.put Runs.gc
  inflight-conclude fin ttl delivered panicked run s = refl
  inflight-conclude fin ttl delivered (stopped text) run s = refl
  inflight-conclude fin ttl delivered (completed out) run s =
      inflight-gc_loop fin s.runs.results s.runs

  inflight-add :
      (key : String) (d : Int64) (rr rr' : RunRegistry (Outcome Content))
      → SameCounts rr rr'
      → SameCounts (add_inflight key d rr) (add_inflight key d rr')
  unfolding add_inflight
  inflight-add key d rr rr' e = rw e refl

  count-same :
      (key : String) (rr rr' : RunRegistry (Outcome Content))
      → SameCounts rr rr'
      → inflight_for key rr ≡ inflight_for key rr'
  unfolding inflight_for
  count-same key rr rr' e = rw e refl

  -- Only the stored rows matter.
  with_runs-IsEnded :
      (s : Server Content) (id key_id status error : String) (fin : ℕ)
      (rr : RunRegistry (Outcome Content))
      → IsEnded s id key_id status error fin
      → IsEnded (record s { runs = rr }) id key_id status error fin
  with_runs-IsEnded s id key_id status error fin rr e = record {
    row = e.row;
    stored = e.stored;
    id_of = e.id_of;
    owner = e.owner;
    state = e.state;
    text = e.text;
    finished = e.finished;
  }

  -- How the work of a run ends, whatever the store holds.
  abbrev pub outcome_of : Job → Option (Summary Content) → Option (Outcome Content)
  outcome_of job none = none
  outcome_of job (some merged) =
      let s = record merged { fanout = length merged.providers } in
      some (record { summary = s; charged = if s.ok == 0 then 0 else job.total_micros })

  abbrev pub ending : {Float : Type 0} → Work Content Float → Execution Content
  ending work =
      let merged = (run_chunks work.chunks no_summary []).1 in
      if work.panics then panicked else ended_by work (outcome_of work.job merged)

  pub run_work-ending :
      {Float : Type 0} (work : Work Content Float) (key_id : String) (m : Mem)
      → (run_work work key_id m).1 ≡ ending work
  unfolding run_work execute_workload settle charge_of
  run_work-ending work key_id m = elim (Bool-cases work.panics) [
    | inl p ↦ rw p refl
    | inr p ↦ elim (Option-cases (run_chunks work.chunks no_summary []).1) [
      | inl n ↦ rw (p, n) refl
      | inr (merged, n) ↦ rw (p, n) refl
    ]
  ]

  -- The end of a run, in terms of its chunks.
  abbrev pub final_status : {Float : Type 0} → Work Content Float → String
  final_status work = if work.panics || any_error work.chunks then "failed" else "succeeded"

  abbrev pub final_error : {Float : Type 0} → Work Content Float → String
  final_error work =
      if work.panics
      then "internal error"
      else if any_error work.chunks
      then (if ltb 300 (work.byte_length work.error_text)
          then work.first_bytes 300 work.error_text
          else work.error_text)
      else ""

  ending-final :
      {Float : Type 0} (work : Work Content Float)
      → (status_of (ending work) ≡ final_status work) × (error_of (ending work) ≡ final_error work)
  ending-final work = elim (Bool-cases work.panics) [
    | inl p ↦ rw p (refl, refl)
    | inr p ↦ elim (run_chunks_lem work.chunks no_summary [] (omega arith) (omega arith)) [
      | inl (e, n) ↦ rw (p, e, n) (refl, refl)
      | inr (s, e, n, ok, failed) ↦ rw (p, e, n) (refl, refl)
    ]
  ]

  pub execute-IsEnded :
      {Float : Type 0} (started fin ttl : ℕ) (delivered : Bool) (work : Work Content Float)
      (run : WorkloadRun) (s : Server Content)
      → run.error ≡ ""
      → IsEnded
          (execute_async_run started fin ttl delivered work run s)
          run.id
          run.key_id
          (status_of (ending work))
          (error_of (ending work))
          fin
        × SameCounts
            (execute_async_run started fin ttl delivered work run s).runs
            (add_inflight run.key_id (neg64 1) s.runs)
  unfolding execute_async_run
  execute-IsEnded started fin ttl delivered work run s e =
      let execution = ending work in
      let progress = with_saves (run_chunks work.chunks no_summary []).0 work.saves in
      let running = record run { status = "running"; started_at = some started } in
      let saved = save_run started running s in
      let r' = report started progress running saved in
      let r : WorkloadRun × Server Content =
        (r'.0, record r'.1 { mem = (run_work work run.key_id r'.1.mem).0 }) in
      let (i, k, x, same) = report-keeps started progress running saved in
      let ended = conclude-IsEnded fin ttl delivered execution r.0 r.1 (x ∙ e) in
      rw (run_work-ending work run.key_id r'.1.mem) (
        with_runs-IsEnded _ run.id run.key_id (status_of execution) (error_of execution) fin _ (
            subst
              (λ a.
                IsEnded (conclude fin ttl delivered execution r.0 r.1) a run.key_id
                  (status_of execution) (error_of execution) fin)
              i
              (subst
                (λ b.
                  IsEnded (conclude fin ttl delivered execution r.0 r.1) r.0.id b
                    (status_of execution) (error_of execution) fin)
                k ended)),
        inflight-add run.key_id (neg64 1) (conclude fin ttl delivered execution r.0 r.1).runs s.runs
            (inflight-conclude fin ttl delivered execution r.0 r.1
              ∙ ap (λ (rr : RunRegistry (Outcome Content)). rr.inflight)
                  (same ∙ unfold save_run in refl)),
      )

  inflight-start_async_run :
      (id secret : String) (now : ℕ) (job : Job) (sub : Submission) (s : Server Content)
      → SameCounts
          (start_async_run id secret now job sub s).0.runs
          (add_inflight sub.key_id 1 s.runs)
  unfolding start_async_run save_run
  inflight-start_async_run id secret now job sub s = elim (Bool-cases (str_eq sub.webhook_url "")) [
    | inl e ↦ rw e refl
    | inr e ↦ rw e (inflight-add sub.key_id 1 _ s.runs (unfold set_secret in refl))
  ]

  -- A run that is started and executed ends: whatever progress is reported and saved on the way, its row
  -- is stored under its id and key, with its end, as failed with the text "internal error" where the
  -- workload panics, as failed with the first 300 bytes of the error's text where a chunk ends in an error,
  -- and otherwise as succeeded. The counts of the runs in flight, of its key and of every other, are as
  -- before, if each was below 2 ^ 63 - 1.
  pub execute-start :
      {Float : Type 0} (id secret : String) (now started fin ttl : ℕ) (sub : Submission)
      (delivered : Bool) (work : Work Content Float) (s : Server Content)
      → ((key : String) → suc (inflight_for key s.runs) < half)
      → let (s1, run, given) = start_async_run id secret now work.job sub s in
        let s2 = execute_async_run started fin ttl delivered work run s1 in
        IsEnded s2 id sub.key_id (final_status work) (final_error work) fin
        × ((key : String) → inflight_for key s2.runs ≡ inflight_for key s.runs)
  execute-start id secret now started fin ttl sub delivered work s small =
      let s1 = (start_async_run id secret now work.job sub s).0 in
      let run = (start_async_run id secret now work.job sub s).1 in
      let (ended, counts) =
        execute-IsEnded started fin ttl delivered work run s1 (unfold start_async_run in refl) in
      let s2 = execute_async_run started fin ttl delivered work run s1 in
      let back : SameCounts s2.runs (add_inflight sub.key_id (neg64 1) s1.runs) =
        unfold start_async_run in counts in
      let (state, text) = ending-final work in
      (
        subst (λ x. IsEnded s2 id sub.key_id x (final_error work) fin) state
            (subst (λ x. IsEnded s2 id sub.key_id (status_of (ending work)) x fin) text
              (unfold start_async_run in ended)),
        λ key.
            count-same key s2.runs
              (add_inflight sub.key_id (neg64 1) (add_inflight sub.key_id 1 s.runs))
              (back
                ∙ inflight-add sub.key_id (neg64 1) s1.runs (add_inflight sub.key_id 1 s.runs)
                    (inflight-start_async_run id secret now work.job sub s))
            ∙ inflight-restored s.runs sub.key_id key small,
      )
