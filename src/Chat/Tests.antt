-- ===== src/Chat/Tests.antt =====
-- A chat of two messages that costs seven, and the theorem at it.
use shared_compute.Common.{
  ℕ, ◌+◌, ◌≡◌, ◌⊎◌, refl, String, true, false, ◌&&◌, some, List, [], ◌∷◌, ◌==◌, str_eq,
  if◌then◌else◌,
}
use shared_compute.Common.Int64.{add64, neg64, le64}
use shared_compute.Common.Dict
use shared_compute.Relay.{Result}
use shared_compute.Store.{Mem, new_mem}
use shared_compute.Store.Ledger.{credit_balance, seen}
use shared_compute.Chat.{
  Server, ChatRequest, RelayRequest, served, completion, written, job_quote,
  handle_chat_completions,
}
use shared_compute.Chat.Meter.{is_completion, balance-handle_chat_completions}

abbrev server : Server ℕ
server = record {
  byte_length = λ s. 5;
  cat = record {
    enabled = true;
    models = record { model_id = "m"; hardware_class = "small" } ∷ [];
  };
  billing_enforce = true;
  price_multiplier = 1;
  le_zero = λ x. x == 0;
  quote = λ model_class tier p c mult. record {
    gross_micros = p + c;
    provider_micros = p;
    model_class = model_class;
  };
}

abbrev answer : Result
answer = record {
  usage = record { prompt_tokens = 3; completion_tokens = 4; total_tokens = 7 };
  finish_reason = "stop";
  provider_id = "p";
  provider_pk = "pk";
  trust_tier = "community";
  job_id = "j";
}

abbrev deltas : List String
deltas = "hi" ∷ " you" ∷ []

abbrev request : ChatRequest
request = record {
  model = "m";
  messages = "hello" ∷ "there" ∷ [];
  max_tokens = some 16;
  min_tier = "";
}

abbrev funded : Mem
funded = record (new_mem (λ k. k) [] []) { credits = Dict.put [] "k" 900; debit_jobs = [] }

fresh : (job : String) → seen funded.debit_jobs job ≡ false
unfolding Dict.get
fresh job = refl

balance-handle_chat_completions_example :
    let (m', a) =
      handle_chat_completions server (λ rr. served answer deltas) "k" (some request) funded in
    ((rr : RelayRequest) × (res : Result) × (ds : List String) × (served answer deltas
        ≡ served res ds)
      × (a ≡ completion res (written "" ds))
      × ((server.billing_enforce && le64 (credit_balance funded "k") 0) ≡ false)
      × (credit_balance m' "k" ≡ (
          if str_eq "k" "k"
          then add64
              (credit_balance funded "k")
              (neg64 (job_quote server rr.model res server.price_multiplier).gross_micros)
          else credit_balance funded "k")))
    ⊎ ((m' ≡ funded) × (is_completion a ≡ false))
balance-handle_chat_completions_example =
    balance-handle_chat_completions server (λ rr. served answer deltas) "k" "k" (some request)
      funded (λ rr res ds h. fresh res.job_id)
