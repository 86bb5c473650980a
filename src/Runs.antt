-- ===== src/Runs.antt =====
-- coordinator/internal/api/runs.go: the registry of asynchronous runs, which holds finished results
-- in memory for a time, the secrets of their webhooks, and the runs in flight by key. The clock is
-- an argument. `Result` is what a finished run keeps beside its expiry.
pub mod Expiry
pub mod Inflight
pub mod Execute
pub mod Async
mod Tests
use shared_compute.Common.{
  ℕ, ◌+◌, String, Bool, true, false, Option, none, some, List, [], ◌∷◌, ltb, str_eq, if◌then◌else◌,
}
use shared_compute.Common.Int64.{Int64, add64, le64}
use shared_compute.Common.Dict
use shared_compute.Common.Dict.{Dict}

pub record RunResults (Result : Type 0) : Type 0 where
  pub result : Result
  pub expires_at : ℕ

pub record RunRegistry (Result : Type 0) : Type 0 where
  pub results : Dict (RunResults Result)
  pub inflight : Dict Int64
  pub secrets : Dict String

abbrev pub count_of : Option Int64 → Int64
count_of none = 0
count_of (some n) = n

module _ {Result : Type 0} where
  abbrev pub new_run_registry : RunRegistry Result
  new_run_registry = record { results = []; inflight = []; secrets = [] }

  pub inflight_for : String → RunRegistry Result → Int64
  inflight_for key_id rr = count_of (Dict.get rr.inflight key_id)

  pub add_inflight : String → Int64 → RunRegistry Result → RunRegistry Result
  add_inflight key_id delta rr =
      let n = add64 (count_of (Dict.get rr.inflight key_id)) delta in
      let inflight = Dict.put rr.inflight key_id n in
      record rr { inflight = if le64 n 0 then Dict.delete inflight key_id else inflight }

  -- The loop of gcLocked over the entries of the map that it deletes from.
  pub gc_loop : ℕ → Dict (RunResults Result) → RunRegistry Result → RunRegistry Result
  gc_loop now [] rr = rr
  gc_loop now ((id, res) ∷ rest) rr =
      let dropped = record rr {
        results = Dict.delete rr.results id;
        secrets = Dict.delete rr.secrets id;
      } in
      gc_loop now rest (if ltb res.expires_at now then dropped else rr)

  pub gc : ℕ → RunRegistry Result → RunRegistry Result
  unfolding gc_loop
  gc now rr = gc_loop now rr.results rr

  pub put : String → RunResults Result → ℕ → RunRegistry Result → RunRegistry Result
  unfolding gc
  put id res now rr = let kept = gc now rr in record kept { results = Dict.put kept.results id res }

  pub get : String → ℕ → RunRegistry Result → RunRegistry Result × Option (RunResults Result)
  unfolding gc
  get id now rr = let kept = gc now rr in (kept, Dict.get kept.results id)

  pub set_secret : String → String → RunRegistry Result → RunRegistry Result
  set_secret id secret rr = record rr { secrets = Dict.put rr.secrets id secret }

  -- A missing secret is the empty string.
  pub secret : String → RunRegistry Result → String
  secret id rr = elim (Dict.get rr.secrets id) [ none ↦ "" | some s ↦ s ]
