-- ===== src/Workloads.antt =====
-- coordinator/internal/api/workloads.go: the handlers that show a quote and accept it. Clock readings,
-- the fresh id and secret of an asynchronous run and what batch.Run gives for each chunk are
-- arguments; so is validateWebhookURL, which rests on the parser of URLs of the standard library. The label of a request stands for what `clip` leaves of it.
pub mod Admission
pub mod Credit
mod Tests
use shared_compute.Common.{
  ℕ, String, Bool, true, false, not, ◌&&◌, Option, none, some, List, str_eq, ltb, if◌then◌else◌,
}
use shared_compute.Common.Int64.{Int64, lt64, le64}
use shared_compute.Batch.{ItemResult, Summary}
use shared_compute.Store.{Mem}
use shared_compute.Store.Ledger.{credit_balance}
use shared_compute.Council
use shared_compute.Council.{acceptable}
use shared_compute.Marketplace
use shared_compute.Marketplace.{Quote, mark_accepted}
use shared_compute.Runs.{inflight_for}
use shared_compute.Chat
use shared_compute.Runs.Execute.{meter_item, Job, Outcome, execute_workload}
use shared_compute.Runs.Async
use shared_compute.Runs.Async.{start_async_run}
use shared_compute.Store.{WorkloadRun}

-- What the handlers read of a quote: the number of its explicit items, its price and the outcome of
-- the Council, if it was asked.
pub record Offer : Type 0 where
  pub items : Int64
  pub total_micros : Int64
  pub council : Option Council.Outcome

pub record Config : Type 0 where
  pub billing_enforce : Bool
  pub max_async_runs : Int64

pub record AcceptRequest : Type 0 where
  pub async : Bool
  pub webhook_url : String
  pub label : String

-- The quotes, and the store with the run registry.
pub record Api (Content : Type 0) : Type 0 where
  pub quotes : Marketplace.Store Offer
  pub server : Async.Server Content

-- The answers: an error with its status and code, a run that was started and its secret, the result
-- of a run, or an error of the relay.
pub data Reply (Content : Type 0) : Type 0 where
  refused : ℕ → String → Reply Content
  started : WorkloadRun → String → Reply Content
  served : Outcome Content → Reply Content
  relay_failed : Reply Content

abbrev pub runnable : Offer → Bool
runnable o = ltb 0 o.items

pub max_async_runs_per_key : Config → Int64
max_async_runs_per_key cfg = if lt64 0 cfg.max_async_runs then cfg.max_async_runs else 4

abbrev pub job_of : Quote Offer → Job
job_of q = record { quote_id = q.id; total_micros = q.offer.total_micros }

abbrev pub blocked_by : Option Council.Outcome → Bool
blocked_by none = false
blocked_by (some o) = not (acceptable (some o))

abbrev pub own_quote : Option (Quote Offer) → String → Option (Quote Offer)
own_quote none key_id = none
own_quote (some q) key_id = if not (str_eq q.key_id key_id) then none else some q

-- What the chunks of a run give, what other requests do to the store between the checks and the
-- settlement of a run that is waited for, and the parts of the program that are arguments.
pub record World (Content Float : Type 0) : Type 0 where
  pub webhook_allowed : String → Bool
  pub metering : Chat.Server Float
  pub price_mult : Float
  pub meanwhile : Mem → Mem
  pub chunks : List (Option (Summary Content))
  pub run_id : String
  pub run_secret : String
  pub started_at : ℕ

abbrev pub reply_of : {Content : Type 0} → Option (Outcome Content) → Reply Content
reply_of none = relay_failed
reply_of (some out) = served out

-- The quote as it is shown, or `none` for the error not_found.
pub handle_get_workload :
    {Content : Type 0} → String → String → ℕ → Api Content → Option (Quote Offer)
handle_get_workload id key_id now s = own_quote (Marketplace.get id now s.quotes) key_id

module _ {Content Float : Type 0} where
  -- The checks before the quote is locked: the status and the code of the first that fails.
  pub check :
      Config
      → World Content Float
      → AcceptRequest
      → String
      → Quote Offer
      → Async.Server Content
      → Option (ℕ × String)
  check cfg w opts key_id q server =
      if q.accepted
      then some (409, "already_accepted")
      else if not (runnable q.offer)
      then some (400, "estimate_only")
      else if blocked_by q.offer.council
      then some (409, "council_blocked")
      else if cfg.billing_enforce && lt64 (credit_balance server.mem key_id) q.offer.total_micros
      then some (402, "insufficient_credit")
      else if not (str_eq opts.webhook_url "") && not (w.webhook_allowed opts.webhook_url)
      then some (400, "bad_webhook")
      else if opts.async && le64 (max_async_runs_per_key cfg) (inflight_for key_id server.runs)
      then some (429, "too_many_runs")
      else none

  pub run_now :
      World Content Float
      → String
      → Quote Offer
      → Async.Server Content
      → Async.Server Content × Reply Content
  run_now w key_id q server =
      let (mem, outcome, past) =
        execute_workload
          (meter_item (record { server = w.metering; model = q.model; price_mult = w.price_mult })
            key_id)
          (job_of q) key_id w.chunks (w.meanwhile server.mem) in
      (record server { mem = mem }, reply_of outcome)

  pub run_later :
      World Content Float
      → AcceptRequest
      → String
      → Quote Offer
      → Async.Server Content
      → Async.Server Content × Reply Content
  run_later w opts key_id q server =
      let (server', run, secret) =
        start_async_run w.run_id w.run_secret w.started_at (job_of q)
          (record {
            key_id = key_id;
            model = q.model;
            items = q.offer.items;
            webhook_url = opts.webhook_url;
            label = opts.label;
          })
          server in
      (server', started run secret)

  -- `locked` is what MarkAccepted gives.
  pub run_locked :
      World Content Float
      → AcceptRequest
      → String
      → Quote Offer
      → Marketplace.Store Offer × Option (Quote Offer)
      → Api Content
      → Api Content × Reply Content
  unfolding run_now run_later
  run_locked w opts key_id q (quotes, none) s = (s, refused 409 "already_accepted")
  run_locked w opts key_id q (quotes, some locked) s =
      let (server, reply) =
        (if opts.async then run_later w opts key_id q s.server else run_now w key_id q s.server) in
      (record { quotes = quotes; server = server }, reply)

  pub accept_checked :
      World Content Float
      → AcceptRequest
      → String
      → String
      → ℕ
      → Quote Offer
      → Option (ℕ × String)
      → Api Content
      → Api Content × Reply Content
  unfolding run_locked
  accept_checked w opts id key_id later q (some (status, code)) s = (s, refused status code)
  accept_checked w opts id key_id later q none s =
      run_locked w opts key_id q (mark_accepted id later s.quotes) s

  pub accept_found :
      Config
      → World Content Float
      → AcceptRequest
      → String
      → String
      → ℕ
      → Option (Quote Offer)
      → Api Content
      → Api Content × Reply Content
  unfolding check accept_checked
  accept_found cfg w opts id key_id later none s = (s, refused 404 "not_found")
  accept_found cfg w opts id key_id later (some q) s =
      accept_checked w opts id key_id later q (check cfg w opts key_id q s.server) s

  -- `now` and `later` are the readings of the clock by Get and by MarkAccepted.
  pub handle_accept_workload :
      Config
      → World Content Float
      → AcceptRequest
      → String
      → String
      → ℕ
      → ℕ
      → Api Content
      → Api Content × Reply Content
  unfolding accept_found
  handle_accept_workload cfg w opts id key_id now later s =
      accept_found cfg w opts id key_id later (own_quote (Marketplace.get id now s.quotes) key_id) s
