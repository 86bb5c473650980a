-- ===== src/Workloads/Tests.antt =====
-- A quote that is accepted at once and then again, and the theorems at it.
use shared_compute.Common.{
  ℕ, ◌+◌, ◌==◌, ◌≤◌, ◌≡◌, refl, String, true, false, some, none, List, [], ◌∷◌, ◌<◌, arith,
}
use shared_compute.Store.{Mem, new_mem}
use shared_compute.Store.Ledger.{credit_balance}
use shared_compute.Common.Dict
use shared_compute.Common.Int64.{half}
use shared_compute.Marketplace
use shared_compute.Marketplace.{Quote, new_store, new_quote, create}
use shared_compute.Marketplace.Quotes.{Op, creates, accepts, run}
use shared_compute.Runs.{new_run_registry}
use shared_compute.Runs.Async
use shared_compute.Workloads.{
  Offer, Config, AcceptRequest, Api, World, check, run_now, run_locked, accept_checked,
  accept_found, handle_accept_workload,
}
use shared_compute.Workloads.Admission.{
  IsDecided, is_refused, reply_of-ran, accept_workload-IsDecided, accept_workload_once,
}
use shared_compute.Workloads.Credit.{balance-accept_workload-le}

abbrev config : Config
config = record { billing_enforce = true; max_async_runs = 0 }

abbrev offer : Offer
offer = record { items = 1; total_micros = 300; council = none }

abbrev world : World String ℕ
world = record {
  webhook_allowed = λ url. false;
  metering = record {
    byte_length = λ s. 5;
    cat = record { enabled = false; models = [] };
    billing_enforce = true;
    price_multiplier = 1;
    le_zero = λ x. x == 0;
    quote = λ model_class tier p c mult. record {
      gross_micros = p + c;
      provider_micros = p;
      model_class = model_class;
    };
  };
  price_mult = 1;
  meanwhile = λ m. record m { topup_refs = Dict.put m.topup_refs "session" tt };
  chunks =
      some (record {
        items = [];
        ok = 1;
        failed = 0;
        fanout = 1;
        providers = [];
        prompt_tokens = 3;
        completion_tokens = 4;
        concurrency = 1;
        wall_ms = 20;
      })
      ∷ [];
  run_id = "r";
  run_secret = "secret";
  started_at = 6;
}

abbrev request : AcceptRequest
request = record { async = false; webhook_url = ""; label = "" }

abbrev server : Async.Server String
server = record {
  mem = record (new_mem (λ k. k) [] []) { credits = ("k", 500) ∷ [] };
  runs = new_run_registry;
}

abbrev api : Api String
api = record {
  quotes = record (new_store Offer 100) { m = ("a", new_quote "a" 0 100 "k" "model" offer) ∷ [] };
  server = server;
}

abbrev between : List (Op Offer)
between = creates "b" 7 "k" "model" offer ∷ accepts "b" 8 ∷ []

first_runs : is_refused (handle_accept_workload config world request "a" "k" 4 5 api).1 ≡ false
unfolding handle_accept_workload accept_found accept_checked check run_locked run_now
    Marketplace.get Marketplace.live_quote Marketplace.mark_accepted Marketplace.accept
    credit_balance Dict.get Dict.put
first_runs = reply_of-ran _

abbrev after_first : Api String
after_first = record {
  quotes = run (handle_accept_workload config world request "a" "k" 4 5 api).0.quotes between;
  server = server;
}

accept_workload_once_example :
    ((handle_accept_workload config world request "a" "k" 6 7 after_first).0 ≡ after_first)
    × (is_refused (handle_accept_workload config world request "a" "k" 6 7 after_first).1 ≡ true)
accept_workload_once_example =
    accept_workload_once config config world world request request "a" "k" "k" 4 5 6 7 api between
      server first_runs (refl, (refl, tt))

price_of_quote :
    (q : Quote Offer) → Marketplace.get "a" 4 api.quotes ≡ some q → q.offer.total_micros < half
unfolding Marketplace.get Marketplace.live_quote Dict.get
price_of_quote q h = ground (arith, h)

has_credit : credit_balance api.server.mem "k" < half
unfolding credit_balance Dict.get
has_credit = omega arith

calm : (m : Mem) → credit_balance (world.meanwhile m) "k" ≡ credit_balance m "k"
unfolding credit_balance
calm m = refl

balance-accept_workload-le_example :
    credit_balance (handle_accept_workload config world request "a" "k" 4 5 api).0.server.mem "k"
    ≤ credit_balance api.server.mem "k"
balance-accept_workload-le_example =
    balance-accept_workload-le world "k" calm config request "a" 4 5 api refl refl has_credit
      price_of_quote

accept_workload-IsDecided_example :
    IsDecided config world request "a" "k" 4 5 api
      (handle_accept_workload config world request "a" "k" 4 5 api)
accept_workload-IsDecided_example = accept_workload-IsDecided config world request "a" "k" 4 5 api
