-- ===== src/Payouts/Tests.antt =====
-- A payout run over two identities, and the theorems at it.
use shared_compute.Common.{ℕ, ◌+◌, ◌*◌, ◌≡◌, refl, String, true, List, [], ◌∷◌, arith}
use shared_compute.Common.Dict
use shared_compute.Store.{Mem, ProviderAccrual, PayoutAccount, new_mem}
use shared_compute.Store.Ledger.{accrued_by_provider, get_payout_account, record_payout_and_settle}
use shared_compute.Store.Ledger.Earnings.{owed}
use shared_compute.Payouts.{
  Transfer, Reply, made, payouts_run, pay_rows, pay_row, pay_account, pay_cents, settle_transfer,
}
use shared_compute.Payouts.Conserve.{sent, IsRows, owed-payouts_run}

abbrev accrual : String → ℕ → ProviderAccrual
accrual pk micros = record { static_pk = pk; jobs = 1; owed_micros = micros }

abbrev account : PayoutAccount
account = record { static_pk = "a"; stripe_account = "acct_a"; status = "enabled" }

abbrev mem : Mem
mem = record (new_mem (λ s. s) [] []) {
  accrued = ("a", accrual "a" 1_234_567) ∷ ("b", accrual "b" 50_000) ∷ [];
  payout_accts = ("a", account) ∷ [];
}

abbrev stripe : List Transfer → Transfer → Reply
stripe past t = made "tr"

-- Credits change while a transfer is under way.
abbrev meanwhile : List Transfer → Mem → Mem
meanwhile ts m = record m { credits = Dict.put m.credits "k" 5 }

rows : IsRows stripe meanwhile true 0 mem.accrued (accrued_by_provider mem)
unfolding accrued_by_provider Dict.get
rows = (refl, omega arith, (refl, tt), (refl, omega arith, tt, tt))

owed-payouts_run_example :
    let r = payouts_run stripe meanwhile true 0 mem in
    owed r.mem "a" + 10_000 * sent "a" r.transfers ≡ owed mem "a"
owed-payouts_run_example = owed-payouts_run stripe meanwhile true 0 mem "a" (λ ts m. refl) rows

cents_sent : sent "a" (payouts_run stripe meanwhile true 0 mem).transfers ≡ 123
unfolding payouts_run pay_rows pay_row pay_account pay_cents settle_transfer accrued_by_provider
    get_payout_account Dict.get record_payout_and_settle
cents_sent = refl
