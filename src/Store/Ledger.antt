-- ===== src/Store/Ledger.antt =====
-- coordinator/internal/store/memory.go: credits, earnings and payouts.
pub mod Credits
pub mod Earnings
pub mod Settle
use Prim.Native.String.{◌++◌ as str_append}
use shared_compute.Common.{
  ℕ, ◌+◌, String, Bool, true, false, not, ◌&&◌, ◌||◌, Option, none, some, List, [], ◌∷◌, ◌++◌, map,
  select, str_eq, if◌then◌else◌,
}
use shared_compute.Common.Int64.{Int64, add64, lt64}
use shared_compute.Common.Dict
use shared_compute.Common.Dict.{Dict, StringSet}
use shared_compute.Store.{
  Mem, EarningEvent, EarningRow, ProviderAccrual, PayoutAccount, PayoutRecord,
}

abbrev pub or_zero : Option Int64 → Int64
or_zero none = 0
or_zero (some n) = n

abbrev pub seen : StringSet → String → Bool
seen s k = elim (Dict.get s k) [ none ↦ false | some u ↦ true ]

unfoldable pub credit_balance : Mem → String → Int64
credit_balance m key_id = or_zero (Dict.get m.credits key_id)

-- The arguments of AddCredit.
pub record Credit : Type 0 where
  pub key_id : String
  pub delta_micros : Int64
  pub reason : String
  pub stripe_ref : String
  pub job_id : String

apply_credit : Credit → Mem → Mem
apply_credit c m = record m {
  credits =
      Dict.put m.credits c.key_id (add64 (or_zero (Dict.get m.credits c.key_id)) c.delta_micros);
}

credit_debit : Credit → Mem → Mem
unfolding apply_credit
credit_debit c m =
    if str_eq c.reason "debit" && not (str_eq c.job_id "")
    then (if seen m.debit_jobs c.job_id
        then m
        else apply_credit c (record m { debit_jobs = Dict.put m.debit_jobs c.job_id tt }))
    else apply_credit c m

pub add_credit : Credit → Mem → Mem
unfolding credit_debit
add_credit c m =
    if str_eq c.reason "topup" && not (str_eq c.stripe_ref "")
    then (if seen m.topup_refs c.stripe_ref
        then m
        else credit_debit c (record m { topup_refs = Dict.put m.topup_refs c.stripe_ref tt }))
    else credit_debit c m

-- "job_id\x00static_pk"
unfoldable pub settlement_key : EarningEvent → String
settlement_key ev = str_append ev.job_id (str_append "\0" ev.static_pk)

keep_row : EarningRow → Option (List EarningRow) → Option (List EarningRow)
keep_row r none = none
keep_row r (some rs) = some (r ∷ rs)

-- The loop over the earning rows: the rows with the provider's first one raised, if it has one.
unfoldable pub raise_row : EarningEvent → List EarningRow → Option (List EarningRow)
unfolding keep_row
raise_row ev [] = none
raise_row ev (r ∷ rs) =
    let raised =
      record r {
        jobs = add64 r.jobs 1;
        gross_micros = add64 r.gross_micros ev.gross_micros;
        provider_micros = add64 r.provider_micros ev.provider_micros;
      }
      ∷ rs in
    let rest = keep_row r (raise_row ev rs) in
    if str_eq r.provider_id ev.provider_id then some raised else rest

abbrev pub or_new : String → Option ProviderAccrual → ProviderAccrual
or_new pk none = record { static_pk = pk; jobs = 0; owed_micros = 0 }
or_new pk (some a) = a

unfoldable pub accrue : EarningEvent → Dict ProviderAccrual → Dict ProviderAccrual
accrue ev accrued =
    if not (str_eq ev.static_pk "")
    then (let a = or_new ev.static_pk (Dict.get accrued ev.static_pk) in
        Dict.put accrued ev.static_pk (record a {
          jobs = add64 a.jobs 1;
          owed_micros = add64 a.owed_micros ev.provider_micros;
        }))
    else accrued

-- After the loop: it returned, or it fell through to the append and the accrual.
unfoldable pub finish_earning : EarningEvent → Option (List EarningRow) → Mem → Mem
unfolding accrue
finish_earning ev (some rows) m = record m { earning_rows = rows }
finish_earning ev none m = record m {
  earning_rows =
      m.earning_rows
      ++ record {
        provider_id = ev.provider_id;
        jobs = 1;
        gross_micros = ev.gross_micros;
        provider_micros = ev.provider_micros;
      }
        ∷ [];
  accrued = accrue ev m.accrued;
}

pub data EarningResult : Type 0 where
  recorded : Mem → EarningResult
  missing_identity : EarningResult

unfoldable pub record_earning : EarningEvent → Mem → EarningResult
unfolding finish_earning
record_earning ev m =
    if str_eq ev.job_id "" || str_eq ev.static_pk ""
    then missing_identity
    else if seen m.earning_events (settlement_key ev)
    then recorded m
    else recorded (
        finish_earning ev (raise_row ev m.earning_rows)
          (record m { earning_events = Dict.put m.earning_events (settlement_key ev) tt }))

unfoldable pub upsert_payout_account : PayoutAccount → Mem → Mem
upsert_payout_account a m = record m { payout_accts = Dict.put m.payout_accts a.static_pk a }

unfoldable pub get_payout_account : Mem → String → Option PayoutAccount
get_payout_account m pk = Dict.get m.payout_accts pk

find_stripe : String → List (String × PayoutAccount) → Option PayoutAccount
find_stripe account [] = none
find_stripe account ((pk, a) ∷ rest) =
    if str_eq a.stripe_account account then some a else find_stripe account rest

unfoldable pub payout_account_by_stripe : Mem → String → Option PayoutAccount
unfolding find_stripe
payout_account_by_stripe m account = find_stripe account m.payout_accts

unfoldable pub accrued_by_provider : Mem → List ProviderAccrual
accrued_by_provider m = select (λ a. lt64 0 a.owed_micros) (map (λ e. e.1) m.accrued)

settle : PayoutRecord → Option ProviderAccrual → Dict ProviderAccrual → Dict ProviderAccrual
settle po none accrued = accrued
settle po (some a) accrued =
    Dict.put accrued po.static_pk (record a { jobs = 0; owed_micros = po.remainder_micros })

unfoldable pub record_payout_and_settle : PayoutRecord → Mem → Mem × Int64
unfolding settle
record_payout_and_settle po m =
    let id = add64 m.next_payout 1 in
    let settled = record m {
      next_payout = id;
      accrued = settle po (Dict.get m.accrued po.static_pk) m.accrued;
    } in
    (if str_eq po.state "created" then settled else record m { next_payout = id }, id)

unfoldable pub earnings_since : Mem → List EarningRow
earnings_since m = m.earning_rows
