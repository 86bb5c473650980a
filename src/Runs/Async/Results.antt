-- ===== src/Runs/Async/Results.antt =====
-- What the results handler answers once a run has ended.
use shared_compute.Common.{
  ℕ, ◌+◌, ◌≡◌, refl, ap, ◌∙◌, subst, String, Bool, ◌||◌, Option, none, some, [], ◌∷◌, ltb, str_eq,
  if◌then◌else◌, Bool-cases, inl, inr,
}
use shared_compute.Common.Int64.{Int64, neg64}
use shared_compute.Common.Dict
use shared_compute.Common.Dict.{Dict}
use shared_compute.Store.{WorkloadRun}
use shared_compute.Runs
use shared_compute.Runs.{RunResults, RunRegistry, inflight_for, add_inflight, gc_loop}
use shared_compute.Runs.Expiry.{get-put_result}
use shared_compute.Runs.Execute.{Outcome, no_summary, run_chunks}
use shared_compute.Runs.Async.{
  Server, Submission, Work, with_saves, Execution, panicked, stopped, completed, start_async_run,
  report, execute_async_run, conclude, finish_run, save_run, keep_results, succeeded,
  get_run_results, lookup_run, answer_of, kept_answer, own_run, Answer, not_finished, not_found,
  run_failed, results_expired, results,
}
use shared_compute.Runs.Async.Ends.{
  IsEnded, status_of, error_of, ending, run_work-ending, execute-IsEnded, report-keeps,
}

module _ {Content : Type 0} where
  gc_loop-results :
      (now : ℕ) (es : Dict (RunResults (Outcome Content))) (rr rr' : RunRegistry (Outcome Content))
      → rr.results ≡ rr'.results
      → (gc_loop now es rr).results ≡ (gc_loop now es rr').results
  unfolding gc_loop
  gc_loop-results now [] rr rr' e = e
  gc_loop-results now ((id, res) ∷ rest) rr rr' e = elim (Bool-cases (ltb res.expires_at now)) [
    | inl t ↦ rw (gc_loop, t) (gc_loop-results now rest _ _ (ap (λ m. Dict.delete m id) e))
    | inr t ↦ rw (gc_loop, t) (gc_loop-results now rest rr rr' e)
  ]

  -- A read of the results does not look at the counts.
  get-add_inflight :
      (id key : String) (now : ℕ) (d : Int64) (rr : RunRegistry (Outcome Content))
      → (Runs.get id now (add_inflight key d rr)).1 ≡ (Runs.get id now rr).1
  unfolding Runs.get Runs.gc add_inflight
  get-add_inflight id key now d rr =
      ap (λ m. Dict.get m id) (gc_loop-results now rr.results (add_inflight key d rr) rr refl)

  -- What is answered to the owner after `execution` ended at `fin`.
  abbrev pub owner_answer : ℕ → ℕ → ℕ → Execution Content → Answer Content
  owner_answer fin ttl later panicked = run_failed "internal error"
  owner_answer fin ttl later (stopped text) = run_failed text
  owner_answer fin ttl later (completed out) =
      if ltb (fin + ttl) later
      then results_expired
      else results (record { result = out; expires_at = fin + ttl })

  -- The results that an ended execution has left.
  kept-execute :
      {Float : Type 0} (started fin ttl later : ℕ) (delivered : Bool) (work : Work Content Float)
      (out : Outcome Content) (run : WorkloadRun) (s : Server Content)
      → ending work ≡ completed out
      → (Runs.get run.id later (execute_async_run started fin ttl delivered work run s).runs).1 ≡ (
          if ltb (fin + ttl) later
          then none
          else some (record { result = out; expires_at = fin + ttl }))
  unfolding execute_async_run conclude finish_run save_run keep_results succeeded
  kept-execute started fin ttl later delivered work out run s done =
      let progress = with_saves (run_chunks work.chunks no_summary []).0 work.saves in
      let running = record run { status = "running"; started_at = some started } in
      let r = report started progress running (save_run started running s) in
      let (i, k, x, same) = report-keeps started progress running (save_run started running s) in
      let res : RunResults (Outcome Content) = record { result = out; expires_at = fin + ttl } in
      rw (run_work-ending work run.key_id r.1.mem ∙ done) (
        get-add_inflight run.id run.key_id later (neg64 1) (Runs.put r.0.id res fin r.1.runs)
        ∙ subst
            (λ x.
              (Runs.get x later (Runs.put r.0.id res fin r.1.runs)).1
              ≡ (if ltb (fin + ttl) later then none else some res))
            i (get-put_result r.0.id res fin later r.1.runs))

  -- The answer to the owner of a row with this state.
  state_answer : String → String → Option (RunResults (Outcome Content)) → Answer Content
  state_answer status error kept =
      if str_eq status "queued" || str_eq status "running"
      then not_finished status
      else if str_eq status "failed"
      then run_failed error
      else kept_answer kept

  get_run_results-IsEnded :
      (id key_id asker status error : String) (fin later : ℕ) (s : Server Content)
      → IsEnded s id key_id status error fin
      → (get_run_results id asker later s).1 ≡ (
          if str_eq key_id asker
          then state_answer status error (Runs.get id later s.runs).1
          else not_found)
  unfolding get_run_results lookup_run answer_of state_answer own_run
  get_run_results-IsEnded id key_id asker status error fin later s e =
      elim (Bool-cases (str_eq key_id asker)) [
        | inr n ↦ rw (e.stored, n, e.owner, n) refl
        | inl n ↦
            rw (e.stored, e.owner, n)
              (elim (Bool-cases (str_eq status "queued" || str_eq status "running")) [
                | inl q ↦ rw (answer_of, e.id_of, e.state, e.text, q) refl
                | inr q ↦ elim (Bool-cases (str_eq status "failed")) [
                  | inl f ↦ rw (answer_of, e.id_of, e.state, e.text, q, f) refl
                  | inr f ↦ rw (answer_of, e.id_of, e.state, e.text, q, f) refl
                ]
              ])
      ]

  state_answer-execute :
      {Float : Type 0} (started fin ttl later : ℕ) (delivered : Bool) (work : Work Content Float)
      (run : WorkloadRun) (s : Server Content) (execution : Execution Content)
      → ending work ≡ execution
      → state_answer
          (status_of execution)
          (error_of execution)
          (Runs.get run.id later (execute_async_run started fin ttl delivered work run s).runs).1
        ≡ owner_answer fin ttl later execution
  unfolding state_answer kept_answer
  state_answer-execute started fin ttl later delivered work run s panicked e = refl
  state_answer-execute started fin ttl later delivered work run s (stopped text) e = refl
  state_answer-execute started fin ttl later delivered work run s (completed out) e =
      rw (kept-execute started fin ttl later delivered work out run s e)
        (elim (Bool-cases (ltb (fin + ttl) later)) [ inl t ↦ rw t refl | inr t ↦ rw t refl ])

  -- Once a run that was started has ended, the results handler answers its key with the results while
  -- they are kept, that results have expired afterwards, or, for a run that failed, with the error, and
  -- answers any other key as if there were no such run.
  pub get_run_results-execute :
      {Float : Type 0} (id secret asker : String) (now started fin ttl later : ℕ) (sub : Submission)
      (delivered : Bool) (work : Work Content Float) (s : Server Content)
      → let (s1, run, given) = start_async_run id secret now work.job sub s in
        let s2 = execute_async_run started fin ttl delivered work run s1 in
        (get_run_results id asker later s2).1
        ≡ (if str_eq sub.key_id asker then owner_answer fin ttl later (ending work) else not_found)
  get_run_results-execute id secret asker now started fin ttl later sub delivered work s =
      let s1 = (start_async_run id secret now work.job sub s).0 in
      let run = (start_async_run id secret now work.job sub s).1 in
      let s2 = execute_async_run started fin ttl delivered work run s1 in
      let execution = ending work in
      let ended : IsEnded s2 id sub.key_id (status_of execution) (error_of execution) fin =
        unfold start_async_run in (execute-IsEnded started fin ttl delivered work run s1 refl).0 in
      let kept : state_answer (status_of execution) (error_of execution)
            (Runs.get id later s2.runs).1
          ≡ owner_answer fin ttl later execution =
        unfold start_async_run in
        state_answer-execute started fin ttl later delivered work run s1 execution refl in
      get_run_results-IsEnded id sub.key_id asker (status_of execution) (error_of execution) fin
        later s2 ended
      ∙ ap (λ a. if str_eq sub.key_id asker then a else not_found) kept
