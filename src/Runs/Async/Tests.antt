-- ===== src/Runs/Async/Tests.antt =====
-- A run of two items, one of which fails, and the theorems of the runs at it.
use shared_compute.Common.{
  ℕ, ◌+◌, ◌%◌, false, suc, ◌<◌, ◌≡◌, ◌⊎◌, String, true, none, some, [], ◌∷◌, ◌==◌, ◌&&◌, str_eq,
  if◌then◌else◌, arith,
}
use shared_compute.Common.Int64.{add64, neg64, lt64, half, modulus}
use shared_compute.Common.Dict
use shared_compute.Batch.{Summary, summarize}
use shared_compute.Store.{Mem, new_mem}
use shared_compute.Store.Ledger.{credit_balance}
use shared_compute.Runs.{new_run_registry, inflight_for}
use shared_compute.Runs.Execute.{Job, Outcome, meter_item, execute_workload}
use shared_compute.Runs.Execute.Charge.{any_error, all_ok, all_failed, balance-execute_workload}
use shared_compute.Runs.Async.{
  Server, Submission, Work, start_async_run, execute_async_run, get_run_results, not_found,
}
use shared_compute.Runs.Async.Ends.{IsEnded, ending, execute-start}
use shared_compute.Runs.Async.Results.{owner_answer, get_run_results-execute}

abbrev job : Job
job = record { quote_id = "q"; total_micros = 500 }

abbrev summary : Summary String
summary =
    summarize
      (record {
        index = 0;
        content = "hello";
        prompt_tokens = 3;
        completion_tokens = 4;
        provider_id = "p";
        provider_pk = "pk";
        trust_tier = "community";
        job_id = "j";
        total_tokens = 9;
        finish_reason = "stop";
        err_code = "";
      }
        ∷ record {
          index = 1;
          content = "";
          prompt_tokens = 0;
          completion_tokens = 0;
          provider_id = "p";
          provider_pk = "pk";
          trust_tier = "community";
          job_id = "j";
          total_tokens = 9;
          finish_reason = "stop";
          err_code = "deadline";
        }
        ∷ [])
      1 20

abbrev mem : Mem
mem = new_mem (λ k. k) [] []

abbrev server : Server String
server = record { mem = mem; runs = new_run_registry }

abbrev submission : Submission
submission = record {
  key_id = "k";
  model = "m";
  items = 2;
  webhook_url = "https://example.org";
  label = "";
}

abbrev work : Work String ℕ
work = record {
  metering = record {
    server = record {
      byte_length = λ s. 5;
      cat = record { enabled = false; models = [] };
      billing_enforce = true;
      price_multiplier = 1;
      le_zero = λ x. x == 0;
      quote = λ model_class tier p c mult. record {
        gross_micros = p + c;
        provider_micros = p;
        model_class = model_class;
      };
    };
    model = "m";
    price_mult = 1;
  };
  job = job;
  chunks = some summary ∷ [];
  panics = false;
  error_text = "";
  byte_length = λ s. 5;
  first_bytes = λ n s. s;
  saves = true ∷ [];
}

balance-execute_workload_example :
    let (m', outcome, past) =
      execute_workload (meter_item work.metering "k") job "k" work.chunks mem in
    ((any_error work.chunks ≡ true) × (outcome ≡ none) × (m' ≡ mem))
    ⊎ ((o : Outcome String) × (any_error work.chunks ≡ false)
        × (outcome ≡ some o)
        × (o.summary.ok ≡ all_ok work.chunks % modulus)
        × (o.summary.failed ≡ all_failed work.chunks % modulus)
        × (o.charged ≡ (if all_ok work.chunks % modulus == 0 then 0 else 500))
        × (credit_balance m' "k" ≡ (
            if str_eq "k" "k" && lt64 0 o.charged
            then add64 (credit_balance mem "k") (neg64 o.charged)
            else credit_balance mem "k")))
balance-execute_workload_example =
    balance-execute_workload work.metering "k" job "k" work.chunks mem

none_running : (key : String) → suc (inflight_for key server.runs) < half
unfolding inflight_for Dict.get
none_running key = omega arith

abbrev ended : Server String
ended =
    execute_async_run 6 9 3600 true work (start_async_run "r" "s" 5 job submission server).1
      (start_async_run "r" "s" 5 job submission server).0

execute-start_example :
    IsEnded ended "r" "k" "succeeded" "" 9
    × ((key : String) → inflight_for key ended.runs ≡ inflight_for key server.runs)
execute-start_example = execute-start "r" "s" 5 6 9 3600 submission true work server none_running

get_run_results-execute_example :
    (get_run_results "r" "k" 100 ended).1
    ≡ (if str_eq "k" "k" then owner_answer 9 3600 100 (ending work) else not_found)
get_run_results-execute_example =
    get_run_results-execute "r" "s" "k" 5 6 9 3600 100 submission true work server
