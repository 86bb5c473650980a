-- ===== src/Runs/Execute/Charge.antt =====
-- What a workload costs its key, and what a failed one leaves.
use shared_compute.Chat.Meter.{record_job-credits, credit_balance-credits}
use shared_compute.Common.{
  ℕ, ◌+◌, ◌%◌, ◌<◌, ap, Bool, true, false, arith, ◌≡◌, refl, ◌∙◌, ◌⊎◌, String, ◌&&◌, Option, none,
  some, List, [], ◌∷◌, ◌++◌, length, ◌==◌, str_eq, if◌then◌else◌, Bool-cases, inl, inr,
}
use shared_compute.Common.Int64.{Int64, add64, neg64, lt64, modulus}
use shared_compute.Batch.{ItemResult, Summary, merge_summary}
use shared_compute.Store.{Mem}
use shared_compute.Store.Ledger.{credit_balance}
use shared_compute.Store.Ledger.Credits.{balance-plain}
use shared_compute.Runs.Execute.{
  Job, Outcome, Progress, Metering, meter_item, result_of, no_summary, progress_of, run_chunks,
  record_items, charge_of, debit, settle, execute_workload,
}

balance-debit :
    (job : Job) (key_id key : String) (charge : Int64) (m : Mem)
    → credit_balance (debit job key_id charge m) key ≡ (
        if str_eq key_id key && lt64 0 charge
        then add64 (credit_balance m key) (neg64 charge)
        else credit_balance m key)
unfolding debit
balance-debit job key_id key charge m = elim (Bool-cases (lt64 0 charge)) [
  | inl e ↦ rw e (
      balance-plain _ m key refl refl
      ∙ elim (Bool-cases (str_eq key_id key)) [ inl k ↦ rw k refl | inr k ↦ rw k refl ])
  | inr e ↦ rw e (elim (Bool-cases (str_eq key_id key)) [ inl k ↦ rw k refl | inr k ↦ rw k refl ])
]

-- Whether a chunk ended in an error, and how many items succeeded and failed in all chunks.
module _ {Content : Type 0} where
  abbrev pub any_error : List (Option (Summary Content)) → Bool
  any_error [] = false
  any_error (none ∷ runs) = true
  any_error (some s ∷ runs) = any_error runs

  abbrev pub all_ok : List (Option (Summary Content)) → ℕ
  all_ok [] = 0
  all_ok (none ∷ runs) = all_ok runs
  all_ok (some s ∷ runs) = s.ok + all_ok runs

  abbrev pub all_failed : List (Option (Summary Content)) → ℕ
  all_failed [] = 0
  all_failed (none ∷ runs) = all_failed runs
  all_failed (some s ∷ runs) = s.failed + all_failed runs

  -- The chunks either stop at an error or fold into their sums.
  pub run_chunks_lem :
      (runs : List (Option (Summary Content))) (merged : Summary Content) (past : List Progress)
      → merged.ok < modulus
      → merged.failed < modulus
      → ((any_error runs ≡ true) × ((run_chunks runs merged past).1 ≡ none))
        ⊎ ((s : Summary Content) × (any_error runs ≡ false)
            × ((run_chunks runs merged past).1 ≡ some s)
            × (s.ok ≡ (merged.ok + all_ok runs) % modulus)
            × (s.failed ≡ (merged.failed + all_failed runs) % modulus))
  unfolding run_chunks merge_summary
  run_chunks_lem [] merged past k f = inr (merged, refl, refl, omega (arith, k), omega (arith, f))
  run_chunks_lem (none ∷ runs) merged past k f = inl (refl, refl)
  run_chunks_lem (some sum ∷ runs) merged past k f =
      let next = merge_summary merged sum (length merged.items) in
      let timed : Summary Content = record next {
        wall_ms = if lt64 merged.wall_ms sum.wall_ms then sum.wall_ms else merged.wall_ms;
      } in
      elim (run_chunks_lem runs timed (past ++ progress_of next ∷ []) (omega arith) (omega arith)) [
        | inl (e, n) ↦ inl (e, n)
        | inr (s, e, n, ok, failed) ↦ inr (s, e, n, omega (arith, ok), omega (arith, failed))
      ]

module _ {Content Float : Type 0} (met : Metering Float) (key_id : String) where
  -- Metering leaves the credits.
  balance-record_items :
      (its : List (ItemResult Content)) (m : Mem) (key : String)
      → credit_balance (record_items (meter_item met key_id) its m) key ≡ credit_balance m key
  unfolding record_items
  balance-record_items [] m key = refl
  balance-record_items (it ∷ its) m key = elim (Bool-cases (str_eq it.err_code "")) [
    | inl e ↦
        let metered =
          record_job-credits met.server key_id met.model (result_of it) met.price_mult m in
        rw e (
          balance-record_items its (meter_item met key_id it m) key
          ∙ credit_balance-credits (meter_item met key_id it m) m key metered.0)
    | inr e ↦ rw e (balance-record_items its m key)
  ]

  -- A workload none of whose chunks ends in an error counts the items that succeeded and failed in all of
  -- them, modulo 2 ^ 64, and costs its key the quoted price when some item succeeded, and nothing when
  -- none did or the price is not positive; no other key's balance changes. One with a chunk that ends in
  -- an error gives no outcome and leaves the store as it was.
  pub balance-execute_workload :
      (job : Job) (key : String) (runs : List (Option (Summary Content))) (m : Mem)
      → let (m', outcome, past) = execute_workload (meter_item met key_id) job key_id runs m in
        ((any_error runs ≡ true) × (outcome ≡ none) × (m' ≡ m))
        ⊎ ((o : Outcome Content) × (any_error runs ≡ false)
            × (outcome ≡ some o)
            × (o.summary.ok ≡ all_ok runs % modulus)
            × (o.summary.failed ≡ all_failed runs % modulus)
            × (o.charged ≡ (if all_ok runs % modulus == 0 then 0 else job.total_micros))
            × (credit_balance m' key ≡ (
                if str_eq key_id key && lt64 0 o.charged
                then add64 (credit_balance m key) (neg64 o.charged)
                else credit_balance m key)))
  unfolding execute_workload settle
  balance-execute_workload job key runs m =
      elim (run_chunks_lem runs no_summary [] (omega arith) (omega arith)) [
        | inl (e, n) ↦ rw n (inl (e, refl, refl))
        | inr (merged, e, n, ok, failed) ↦
            let counted : merged.ok ≡ all_ok runs % modulus = omega (arith, ok) in
            rw n (
              inr (
                record {
                  summary = record merged { fanout = length merged.providers };
                  charged = charge_of job (record merged { fanout = length merged.providers });
                },
                e,
                refl,
                counted,
                omega (arith, failed),
                unfold charge_of in ap (λ (n : ℕ). if n == 0 then 0 else job.total_micros) counted,
                balance-debit job key_id key
                      (charge_of job (record merged { fanout = length merged.providers }))
                      (record_items (meter_item met key_id) merged.items m)
                    ∙ rw (balance-record_items merged.items m key) refl,
              ))
      ]
