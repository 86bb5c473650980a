-- ===== src/Payouts.antt =====
-- coordinator/internal/api/billing.go: the payout run of adminPayoutsRun on the in-memory store.
-- Stripe is a parameter: its answer to a transfer may depend on the transfers made before. So is what
-- other requests do to the store while it is asked, `meanwhile`, since no lock is held. Amounts
-- in dollars, which are floats for the reply only, are kept in micros.
pub mod Conserve
pub mod DryRun
mod Tests
use Prim.Native.String.{◌++◌ as str_append}
use shared_compute.Common.{
  ℕ, ◌+◌, ◌*◌, String, Bool, true, false, not, ◌&&◌, ◌||◌, Option, none, some, List, [], ◌∷◌, ◌++◌,
  length, str_eq, if◌then◌else◌,
}
use shared_compute.Common.Int64.{Int64, add64, sub64, mul64, div64, lt64}
use shared_compute.Store.{Mem, ProviderAccrual, PayoutAccount, PayoutRecord}
use shared_compute.Store.Ledger.{accrued_by_provider, get_payout_account, record_payout_and_settle}

-- One line of the reply.
pub record Line : Type 0 where
  pub static_pk : String
  pub amount_micros : Int64
  pub account : String
  pub transfer : String
  pub skipped : String

-- A transfer that Stripe is asked for, and its answer: the id, or an error.
pub record Transfer : Type 0 where
  pub static_pk : String
  pub account : String
  pub cents : Int64

pub data Reply : Type 0 where
  made refused : String → Reply

-- The store, the variables of the loop, and the transfers that were made.
pub record Run : Type 0 where
  pub mem : Mem
  pub results : List Line
  pub total_micros : Int64
  pub transfers : List Transfer

abbrev pub skip : String → Line → Run → Run
skip why res r = record r { results = r.results ++ record res { skipped = why } ∷ [] }

abbrev pub payout : ProviderAccrual → PayoutAccount → Int64 → String → String → Int64 → PayoutRecord
payout a pa micros transfer state remainder = record {
  static_pk = a.static_pk;
  stripe_account = pa.stripe_account;
  amount_micros = micros;
  stripe_transfer = transfer;
  state = state;
  remainder_micros = remainder;
}

module _ (stripe : List Transfer → Transfer → Reply) (meanwhile : List Transfer → Mem → Mem)
    (commit : Bool) (min_micros : Int64) where
  pub settle_transfer : ProviderAccrual → PayoutAccount → Int64 → Line → Reply → Run → Run
  settle_transfer a pa cents res (refused why) r =
      let m = (record_payout_and_settle (payout a pa (mul64 cents 10_000) "" "failed" 0) r.mem).0 in
      skip (str_append "transfer failed: " why) res (record r { mem = m })
  settle_transfer a pa cents res (made id) r =
      let micros = mul64 cents 10_000 in
      let po = payout a pa micros id "created" (sub64 a.owed_micros micros) in
      record {
        mem = (record_payout_and_settle po r.mem).0;
        results = r.results ++ record res { transfer = id } ∷ [];
        total_micros = add64 r.total_micros micros;
        transfers =
            r.transfers
            ++ record { static_pk = a.static_pk; account = pa.stripe_account; cents = cents } ∷ [];
      }

  pub pay_cents : ProviderAccrual → PayoutAccount → Int64 → Line → Run → Run
  unfolding settle_transfer
  pay_cents a pa cents res r =
      let micros = mul64 cents 10_000 in
      let paid = record res { amount_micros = micros } in
      let t : Transfer = record {
        static_pk = a.static_pk;
        account = pa.stripe_account;
        cents = cents;
      } in
      if lt64 cents 1
      then skip "below 1 cent" res r
      else if not commit
      then record r { results = r.results ++ paid ∷ []; total_micros = add64 r.total_micros micros }
      else settle_transfer a pa cents paid (stripe r.transfers t)
          (record r { mem = meanwhile r.transfers r.mem })

  pub pay_account : ProviderAccrual → Option PayoutAccount → Line → Run → Run
  unfolding pay_cents
  pay_account a none res r = skip "no enabled payout account" res r
  pay_account a (some pa) res r =
      if not (str_eq pa.status "enabled")
      then skip "no enabled payout account" res r
      else pay_cents a pa (div64 a.owed_micros 10_000) (record res { account = pa.stripe_account })
          r

  pub pay_row : ProviderAccrual → Run → Run
  unfolding pay_account
  pay_row a r =
      let res : Line = record {
        static_pk = a.static_pk;
        amount_micros = a.owed_micros;
        account = "";
        transfer = "";
        skipped = "";
      } in
      if lt64 a.owed_micros min_micros
      then skip "below min" res r
      else pay_account a (get_payout_account r.mem a.static_pk) res r

  pub pay_rows : List ProviderAccrual → Run → Run
  unfolding pay_row
  pay_rows [] r = r
  pay_rows (a ∷ rows) r = pay_rows rows (pay_row a r)

  pub payouts_run : Mem → Run
  unfolding pay_rows
  payouts_run m =
      pay_rows (accrued_by_provider m)
        (record { mem = m; results = []; total_micros = 0; transfers = [] })
