-- ===== src/Store/Tests.antt =====
-- A store with a history, and the theorems of the store at it.
use shared_compute.Common.{ℕ, ◌≡◌, ◌≢◌, refl, String, true, false, none, some, List, [], ◌∷◌, arith}
use shared_compute.Common.Int64.{add64}
use shared_compute.Common.Dict
use shared_compute.Store.{PayoutRecord, Mem, EarningEvent, UsageEvent, WorkloadRun, new_mem}
use shared_compute.Store.Keys.{create_consumer_key, set_consumer_key_disabled, fresh_info}
use shared_compute.Store.Ledger.{
  record_payout_and_settle, Credit, credit_balance, settlement_key, raise_row, accrue,
  finish_earning, recorded, missing_identity, record_earning,
}
use shared_compute.Store.Ledger.Settle.{settle_forgets}
use shared_compute.Store.Ledger.Credits.{add_credits, total, balance-new_mem}
use shared_compute.Store.Ledger.Earnings.{owed, has_row, settled, owed_misses_repeat}
use shared_compute.Store.Rows.{upsert_run}

abbrev short_id : String → String
short_id s = "id"

abbrev empty : Mem
empty = new_mem short_id [] []

abbrev credit : String → ℕ → String → String → Credit
credit reason delta stripe job = record {
  key_id = "k";
  delta_micros = delta;
  reason = reason;
  stripe_ref = stripe;
  job_id = job;
}

-- A top-up that Stripe delivers twice, and a debit that is retried.
abbrev history : List Credit
history =
    credit "topup" 500 "evt" ""
    ∷ credit "topup" 500 "evt" ""
    ∷ credit "debit" 20 "" "job"
    ∷ credit "debit" 20 "" "job"
    ∷ credit "grant" 7 "" ""
    ∷ []

counted_once : total "k" [] history ≡ 527
unfolding total
counted_once = refl

balance-new_mem_example :
    credit_balance (add_credits history (new_mem short_id [] [])) "k" ≡ total "k" [] history
balance-new_mem_example = balance-new_mem short_id [] [] history "k"

abbrev earning : String → ℕ → EarningEvent
earning job micros = record {
  job_id = job;
  provider_id = "p";
  static_pk = "pk";
  key_id = "k";
  model = "m";
  model_class = "";
  tier = "";
  gross_micros = micros;
  provider_micros = micros;
  created_at = 0;
}

abbrev after_first : Mem
after_first = elim (record_earning (earning "job" 40) empty) [
  | recorded m ↦ m
  | missing_identity ↦ empty
]

first_recorded : record_earning (earning "job" 40) empty ≡ recorded after_first
unfolding record_earning Dict.get Dict.put new_mem Dict.delete raise_row finish_earning
    settlement_key
first_recorded = refl

-- A second job of the provider: its identity is still owed 40.
abbrev after_second : Mem
after_second = elim (record_earning (earning "next" 25) after_first) [
  | recorded m ↦ m
  | missing_identity ↦ after_first
]

second_recorded : record_earning (earning "next" 25) after_first ≡ recorded after_second
unfolding record_earning Dict.get Dict.put new_mem Dict.delete raise_row finish_earning
    settlement_key
second_recorded = refl

second_unsettled : settled after_first (earning "next" 25) ≡ false
unfolding record_earning Dict.get Dict.put new_mem Dict.delete raise_row finish_earning
    settlement_key
second_unsettled = refl

has_first_row : has_row "p" after_first.earning_rows ≡ true
unfolding record_earning Dict.get Dict.put new_mem Dict.delete raise_row finish_earning
    settlement_key
has_first_row = refl

first_owed : owed after_first "pk" ≡ 40
unfolding record_earning Dict.get Dict.put new_mem Dict.delete raise_row finish_earning
    settlement_key accrue
first_owed = refl

owed_misses_repeat_example : owed after_second "pk" ≢ add64 (owed after_first "pk") 25
owed_misses_repeat_example =
    owed_misses_repeat (earning "next" 25) after_first after_second second_recorded second_unsettled
      has_first_row (rw first_owed (omega arith)) (omega arith) (omega arith)

-- A payout of what the identity was owed after its first job, while a second provider of the same
-- identity finishes a job.
abbrev payout : PayoutRecord
payout = record {
  static_pk = "pk";
  stripe_account = "acct";
  amount_micros = 0;
  stripe_transfer = "tr";
  state = "created";
  remainder_micros = 40;
}

abbrev elsewhere : EarningEvent
elsewhere = record (earning "other" 25) { provider_id = "q" }

abbrev after_other : Mem
after_other = elim (record_earning elsewhere after_first) [
  | recorded m ↦ m
  | missing_identity ↦ after_first
]

other_recorded : record_earning elsewhere after_first ≡ recorded after_other
unfolding record_earning Dict.get Dict.put new_mem Dict.delete raise_row finish_earning
    settlement_key
other_recorded = refl

first_accrual :
    Dict.get after_first.accrued "pk"
    ≡ some (record { static_pk = "pk"; jobs = 1; owed_micros = 40 })
unfolding record_earning Dict.get Dict.put Dict.delete new_mem raise_row finish_earning accrue
first_accrual = refl

settle_forgets_example :
    owed (record_payout_and_settle payout after_other).0 "pk"
    ≡ owed (record_payout_and_settle payout after_first).0 "pk"
settle_forgets_example =
    settle_forgets payout elsewhere after_first after_other
      (record { static_pk = "pk"; jobs = 1; owed_micros = 40 }) refl first_accrual other_recorded

keyed : Dict.get empty.keys "raw" ≢ some (short_id "raw")
unfolding new_mem Dict.get
keyed = λ e. cc

abbrev with_raw_key : Mem
with_raw_key = (create_consumer_key short_id "raw" 3 "label" empty).0

abbrev with_disabled : Mem
with_disabled = record with_raw_key {
  key_info =
      Dict.put with_raw_key.key_info "id" (record (fresh_info "id" "label" 3) { disabled = true });
}

key_disabled : set_consumer_key_disabled "id" true with_raw_key ≡ some with_disabled
unfolding set_consumer_key_disabled create_consumer_key new_mem Dict.get Dict.put
key_disabled = refl

abbrev used : UsageEvent
used = record {
  key_id = "k";
  provider_id = "p";
  model = "m";
  tier = "";
  prompt_tokens = 5;
  completion_tokens = 6;
  duration_ms = 1;
  finish_reason = "stop";
  created_at = 0;
}

abbrev queued : String → WorkloadRun
queued id = record {
  id = id;
  key_id = "k";
  workload_id = "w";
  model = "m";
  status = "queued";
  total_items = 1;
  done_items = 0;
  ok_items = 0;
  failed_items = 0;
  quoted_micros = 1;
  charged_micros = 0;
  prompt_tokens = 0;
  completion_tokens = 0;
  wall_ms = 0;
  fanout = 0;
  webhook_url = "";
  webhook_state = "";
  label = "";
  error = "";
  created_at = 0;
  started_at = none;
  finished_at = none;
}

abbrev two_runs : Mem
two_runs = upsert_run 9 (queued "r") (upsert_run 4 (queued "s") empty)
