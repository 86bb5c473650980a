-- ===== src/Webhooks.antt =====
-- coordinator/internal/api/billing.go: the webhooks of Stripe, on the in-memory store, and the list of
-- pending payouts. The checks of the signatures, the parsing of what Stripe sends and its answer on an
-- account are arguments; amounts in dollars, which are floats for the reply only, are kept in micros.
pub mod Replay
pub mod Accounts
mod Tests
use shared_compute.Common.{
  ℕ, ◌+◌, ◌*◌, String, Bool, true, false, not, ◌||◌, Option, none, some, List, [], ◌∷◌, map, ◌==◌,
  str_eq, if◌then◌else◌,
}
use shared_compute.Common.Int64.{Int64, mul64, le64}
use shared_compute.Common.Dict
use shared_compute.Common.Dict.{Dict}
use shared_compute.Store.{Mem, ProviderAccrual, PayoutAccount}
use shared_compute.Store.Ledger.{
  Credit, add_credit, accrued_by_provider, get_payout_account, payout_account_by_stripe,
  upsert_payout_account,
}

pub record CheckoutSession : Type 0 where
  pub id : String
  pub payment_status : String
  pub client_reference_id : String
  pub metadata : Dict String
  pub amount_total : Int64

-- A verified event: its type, and its session, `none` if that cannot be parsed.
pub record Event : Type 0 where
  pub type_of : String
  pub session : Option CheckoutSession

-- What a request brings: whether a secret is configured, whether the body could be read, and the event,
-- `none` if its signature does not verify.
pub record Request : Type 0 where
  pub configured : Bool
  pub readable : Bool
  pub event : Option Event

pub data Answer : Type 0 where
  failed : ℕ → Answer
  ignored : String → Answer
  received : Answer

abbrev pub value_of : Option String → String
value_of none = ""
value_of (some v) = v

abbrev pub key_of : CheckoutSession → String
key_of cs =
    if str_eq cs.client_reference_id ""
    then value_of (Dict.get cs.metadata "key_id")
    else cs.client_reference_id

module _ (parse_int : String → Int64) where
  -- `parse_int` is the value that strconv.ParseInt returns, also beside an error.
  abbrev pub micros_of : CheckoutSession → Int64
  micros_of cs =
      let micros = parse_int (value_of (Dict.get cs.metadata "credit_micros")) in
      if micros == 0 then mul64 cs.amount_total 10_000 else micros

  abbrev pub credit_of : CheckoutSession → Credit
  credit_of cs = record {
    key_id = key_of cs;
    delta_micros = micros_of cs;
    reason = "topup";
    stripe_ref = cs.id;
    job_id = "";
  }

  pub on_session : Option CheckoutSession → Mem → Mem × Answer
  on_session none m = (m, failed 400)
  on_session (some cs) m =
      if not (str_eq cs.payment_status "paid")
      then (m, ignored "not paid")
      else if str_eq (key_of cs) "" || le64 (micros_of cs) 0
      then (m, ignored "missing key_id/amount")
      else (add_credit (credit_of cs) m, received)

  pub on_event : Option Event → Mem → Mem × Answer
  unfolding on_session
  on_event none m = (m, failed 400)
  on_event (some ev) m =
      if str_eq ev.type_of "checkout.session.completed"
        || str_eq ev.type_of "checkout.session.async_payment_succeeded"
      then on_session ev.session m
      else (m, received)

  pub handle_stripe_webhook : Request → Mem → Mem × Answer
  unfolding on_event
  handle_stripe_webhook req m =
      if not req.configured
      then (m, failed 501)
      else if not req.readable
      then (m, failed 400)
      else on_event req.event m

-- A thin event: the related object's id, if it has one, and the segments of its context.
pub record Notification : Type 0 where
  pub related : Option String
  pub segments : List String

-- `is_account` is strings.HasPrefix with "acct_"; the last such segment is taken.
pub last_account : (String → Bool) → List String → String → String
last_account is_account [] found = found
last_account is_account (seg ∷ rest) found =
    last_account is_account rest (if is_account seg then seg else found)

pub account_of : (String → Bool) → Notification → String
unfolding last_account
account_of is_account n = elim n.related [
  | none ↦ last_account is_account n.segments ""
  | some id ↦ if is_account id then id else last_account is_account n.segments ""
]

-- `ready` is Stripe's answer on the account, `none` for an error.
pub set_status : Option PayoutAccount → Option Bool → Mem → Mem
set_status none ready m = m
set_status (some pa) none m = m
set_status (some pa) (some ready) m =
    upsert_payout_account (record pa { status = if ready then "enabled" else "pending" }) m

pub on_notification :
    (String → Bool) → (String → Option Bool) → Option Notification → Mem → Mem × Answer
unfolding account_of set_status
on_notification is_account ready none m = (m, failed 400)
on_notification is_account ready (some n) m =
    let id = account_of is_account n in
    if not (str_eq id "")
    then (set_status (payout_account_by_stripe m id) (ready id) m, received)
    else (m, received)

-- The notification is `none` if its signature does not verify.
pub handle_payout_webhook :
    (String → Bool)
    → (String → Option Bool)
    → Bool
    → Bool
    → Option Notification
    → Mem
    → Mem × Answer
unfolding on_notification
handle_payout_webhook is_account ready configured readable notification m =
    if not configured
    then (m, failed 501)
    else if not readable
    then (m, failed 400)
    else on_notification is_account ready notification m

-- A line of the pending payouts.
pub record PendingLine : Type 0 where
  pub static_pk : String
  pub jobs : Int64
  pub owed_micros : Int64
  pub account : String
  pub status : String
  pub payable : Bool

pub line_of : ProviderAccrual → Option PayoutAccount → PendingLine
line_of a none = record {
  static_pk = a.static_pk;
  jobs = a.jobs;
  owed_micros = a.owed_micros;
  account = "";
  status = "";
  payable = false;
}
line_of a (some pa) = record {
  static_pk = a.static_pk;
  jobs = a.jobs;
  owed_micros = a.owed_micros;
  account = pa.stripe_account;
  status = pa.status;
  payable = str_eq pa.status "enabled";
}

pub payouts_pending : Mem → List PendingLine
unfolding line_of
payouts_pending m = map (λ a. line_of a (get_payout_account m a.static_pk)) (accrued_by_provider m)
