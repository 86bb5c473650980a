-- ===== src/Webhooks/Accounts.antt =====
-- What a payout notification does to the payout accounts.
use shared_compute.Common.{
  ◌≡◌, refl, String, Bool, true, false, Option, some, str_eq, if◌then◌else◌,
}
use shared_compute.Common.Dict.{get-put}
use shared_compute.Store.{Mem, PayoutAccount}
use shared_compute.Store.Ledger.{
  credit_balance, get_payout_account, payout_account_by_stripe, upsert_payout_account,
}
use shared_compute.Webhooks.{
  Notification, account_of, set_status, on_notification, handle_payout_webhook,
}

-- A verified notification of a known account, on whose state Stripe answers, leaves the account enabled
-- exactly if Stripe says that it is ready, and pending otherwise, and every other identity's account
-- and every balance as it was.
pub get_payout_account-webhook :
    (is_account : String → Bool) (ready : String → Option Bool) (n : Notification)
    (pa : PayoutAccount) (answer : Bool) (m : Mem) (pk : String)
    → str_eq (account_of is_account n) "" ≡ false
    → payout_account_by_stripe m (account_of is_account n) ≡ some pa
    → ready (account_of is_account n) ≡ some answer
    → let m' = (handle_payout_webhook is_account ready true true (some n) m).0 in
      (get_payout_account m' pk ≡ (
        if str_eq pa.static_pk pk
        then some (record pa { status = if answer then "enabled" else "pending" })
        else get_payout_account m pk))
      × (credit_balance m' pk ≡ credit_balance m pk)
unfolding handle_payout_webhook on_notification set_status upsert_payout_account get_payout_account
    credit_balance
get_payout_account-webhook is_account ready n pa answer m pk e f g =
    rw (e, f, g) (rw get-put refl, refl)
