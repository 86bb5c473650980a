-- ===== src/Chat.antt =====
-- coordinator/internal/api/chat.go: the request of a chat without streaming, from its checks to the
-- metering, with ClassOf of coordinator/internal/catalog/catalog.go. The rate card's arithmetic is on
-- floats, so QuoteJob is a parameter, and so is what relay.Execute returns for a request, which
-- Relay/Dispatch models. Metrics, logs and the sampling parameters that pass through are left out.
pub mod Meter
mod Tests
use Prim.Native.String.{◌++◌ as str_append}
use shared_compute.Common.{
  ℕ, ◌+◌, ◌*◌, ◌⊎◌, inl, inr, String, Bool, true, false, not, ◌&&◌, ◌||◌, Option, none, some, List,
  [], ◌∷◌, ltb, str_eq, if◌then◌else◌, ◌==◌,
}
use shared_compute.Common.Int64.{Int64, neg64, lt64, le64}
use shared_compute.Relay.{
  Usage, Result, Failure, context_done, deadline, provider_gone, bad_chunk, decrypt, bad_plaintext,
  invalid_result, write_failed, bad_done, provider_error,
}
use shared_compute.Relay.Dispatch.{
  ExecError, unpicked, no_key, no_plaintext, no_seal, relayed, err_code,
}
use shared_compute.Scheduler
use shared_compute.Store.{Mem, UsageEvent, EarningEvent}
use shared_compute.Store.Ledger.{
  EarningResult, recorded, missing_identity, record_earning, add_credit, credit_balance,
}
use shared_compute.Store.Rows.{record_usage}

pub record Model : Type 0 where
  pub model_id : String
  pub hardware_class : String

-- A catalog; `enabled` is false where it has no base URL or there is none.
pub record Catalog : Type 0 where
  pub enabled : Bool
  pub models : List Model

-- The contents of the messages stand for the messages; `max_tokens` is `none` where it is null, and
-- `min_tier` is the trimmed header X-Provider-Trust-Level.
pub record ChatRequest : Type 0 where
  pub model : String
  pub messages : List String
  pub max_tokens : Option Int64
  pub min_tier : String

pub record RelayRequest : Type 0 where
  pub model : String
  pub messages : List String
  pub min_tier : String
  pub hw_class : String
  pub max_tokens : Int64

abbrev pub default_max_tokens : Int64
default_max_tokens = 512

abbrev pub max_prompt_chars : ℕ
max_prompt_chars = 256 * 1024

unfoldable pub class_of : String → List Model → String
class_of model [] = ""
class_of model (m ∷ ms) =
    let rest = class_of model ms in if str_eq m.model_id model then m.hardware_class else rest

unfoldable pub find_class : String → List Model → Option String
find_class model [] = none
find_class model (m ∷ ms) =
    let rest = find_class model ms in
    if str_eq m.model_id model then some m.hardware_class else rest

-- `none` is a model that the catalog does not list.
unfoldable pub resolve_model : Catalog → String → Option String
unfolding find_class
resolve_model cat model = if not cat.enabled then some "" else of_models cat.models
  where
    of_models : List Model → Option String
    of_models [] = some ""
    of_models (m ∷ ms) = find_class model (m ∷ ms)

-- The loop, from `n` bytes on.
unfoldable pub too_big_from : (String → ℕ) → ℕ → List String → Bool
too_big_from byte_length n [] = false
too_big_from byte_length n (m ∷ ms) =
    let rest = too_big_from byte_length (n + byte_length m) ms in
    if ltb max_prompt_chars (n + byte_length m) then true else rest

abbrev pub messages_too_big : (String → ℕ) → List String → Bool
messages_too_big byte_length ms = too_big_from byte_length 0 ms

abbrev pub is_empty : List String → Bool
is_empty [] = true
is_empty (m ∷ ms) = false

abbrev pub max_tokens_of : Option Int64 → Int64
max_tokens_of none = default_max_tokens
max_tokens_of (some n) = if lt64 0 n then n else default_max_tokens

pub record Quote : Type 0 where
  pub gross_micros : Int64
  pub provider_micros : Int64
  pub model_class : String

-- An HTTP error with its code, no answer to a client that has gone, or the completion.
pub data Answer : Type 0 where
  refused : ℕ → String → Answer
  silent : Answer
  completion : Result → String → Answer

-- What relay.Execute returns, with the deltas that it has passed on before; `canceled` says whether the
-- error is context.Canceled.
pub data Executed : Type 0 where
  served : Result → List String → Executed
  broken : Bool → ExecError → Executed

-- The status of relayErrInfo for an error in the loop of the relay.
abbrev pub failure_status : Bool → Failure → ℕ
failure_status canceled provider_gone = 502
failure_status canceled invalid_result = 502
failure_status canceled deadline = 504
failure_status canceled context_done = if canceled then 499 else 500
failure_status canceled write_failed = if canceled then 499 else 500
failure_status canceled bad_chunk = 500
failure_status canceled decrypt = 500
failure_status canceled bad_plaintext = 500
failure_status canceled bad_done = 500
failure_status canceled (provider_error code) = 500

abbrev pub relay_status : Bool → ExecError → ℕ
relay_status canceled (unpicked Scheduler.no_provider) = 503
relay_status canceled (unpicked Scheduler.tier_unmet) = 409
relay_status canceled (unpicked Scheduler.caps_unmet) = 503
relay_status canceled no_key = 500
relay_status canceled no_plaintext = 500
relay_status canceled no_seal = 500
relay_status canceled (relayed f) = failure_status canceled f

unfoldable pub map_relay_err : Bool → ExecError → Answer
map_relay_err canceled e =
    if not (relay_status canceled e == 499)
    then refused (relay_status canceled e) (err_code canceled e).0
    else silent

-- The string builder that the deltas are written to.
unfoldable pub written : String → List String → String
written sb [] = sb
written sb (delta ∷ deltas) = written (str_append sb delta) deltas

-- A failure to record an earning is only logged.
unfoldable pub earned_or : Mem → EarningResult → Mem
earned_or m missing_identity = m
earned_or m (recorded m') = m'

-- What the handler takes from the rest of the program: `quote` is QuoteJob with the quality factor 1.
pub record Server (Float : Type 0) : Type 0 where
  pub byte_length : String → ℕ
  pub cat : Catalog
  pub billing_enforce : Bool
  pub price_multiplier : Float
  pub le_zero : Float → Bool
  pub quote : String → String → Int64 → Int64 → Float → Quote

module _ {Float : Type 0} (s : Server Float) where
  abbrev pub job_quote : String → Result → Float → Quote
  job_quote model res price_mult =
      s.quote (class_of model s.cat.models) res.trust_tier res.usage.prompt_tokens
        res.usage.completion_tokens
        (if s.le_zero price_mult then s.price_multiplier else price_mult)

  -- The times of both rows are left zero.
  unfoldable pub record_job : String → String → Result → Float → Mem → Mem × Quote
  unfolding earned_or class_of
  record_job key_id model res price_mult m =
      let q = job_quote model res price_mult in
      let used =
        record_usage
          (record {
            key_id = key_id;
            provider_id = res.provider_id;
            model = model;
            tier = res.trust_tier;
            prompt_tokens = res.usage.prompt_tokens;
            completion_tokens = res.usage.completion_tokens;
            duration_ms = 0;
            finish_reason = res.finish_reason;
            created_at = 0;
          })
          m in
      (
        earned_or used (
            record_earning
              (record {
                job_id = res.job_id;
                provider_id = res.provider_id;
                static_pk = res.provider_pk;
                key_id = key_id;
                model = model;
                model_class = q.model_class;
                tier = res.trust_tier;
                gross_micros = q.gross_micros;
                provider_micros = q.provider_micros;
                created_at = 0;
              })
              used),
        q,
      )

  unfoldable pub meter : String → String → Result → Mem → Mem
  unfolding record_job
  meter key_id model res m =
      let (m', q) = record_job key_id model res s.price_multiplier m in
      add_credit
        (record {
          key_id = key_id;
          delta_micros = neg64 q.gross_micros;
          reason = "debit";
          stripe_ref = "";
          job_id = res.job_id;
        })
        m'

  unfoldable pub relay_request : ChatRequest → String → RelayRequest
  relay_request req hw_class = record {
    model = req.model;
    messages = req.messages;
    min_tier = req.min_tier;
    hw_class = hw_class;
    max_tokens = max_tokens_of req.max_tokens;
  }

  unfoldable pub blocking_chat : String → String → Executed → Mem → Mem × Answer
  unfolding meter map_relay_err written
  blocking_chat key_id model (broken canceled e) m = (m, map_relay_err canceled e)
  blocking_chat key_id model (served res deltas) m =
      (meter key_id model res m, completion res (written "" deltas))

  -- The request that passes the checks, or the error; the body is `none` where it is no JSON.
  unfoldable pub check_model :
      String → ChatRequest → Mem → Option String → (ℕ × String) ⊎ RelayRequest
  unfolding relay_request
  check_model key_id req m none = inl (404, "model_not_found")
  check_model key_id req m (some hw_class) =
      if s.billing_enforce && le64 (credit_balance m key_id) 0
      then inl (402, "insufficient_credit")
      else inr (relay_request req hw_class)

  unfoldable pub check : String → Option ChatRequest → Mem → (ℕ × String) ⊎ RelayRequest
  unfolding check_model resolve_model too_big_from
  check key_id none m = inl (400, "invalid_json")
  check key_id (some req) m =
      if str_eq req.model "" || is_empty req.messages
      then inl (400, "invalid_request")
      else if messages_too_big s.byte_length req.messages
      then inl (413, "prompt_too_large")
      else check_model key_id req m (resolve_model s.cat req.model)

  unfoldable pub run_checked :
      (RelayRequest → Executed) → String → Mem → (ℕ × String) ⊎ RelayRequest → Mem × Answer
  unfolding blocking_chat
  run_checked execute key_id m (inl (status, code)) = (m, refused status code)
  run_checked execute key_id m (inr rr) = blocking_chat key_id rr.model (execute rr) m

  -- handleChatCompletions where the request does not ask for a stream.
  unfoldable pub handle_chat_completions :
      (RelayRequest → Executed) → String → Option ChatRequest → Mem → Mem × Answer
  unfolding check run_checked
  handle_chat_completions execute key_id body m = run_checked execute key_id m (check key_id body m)
