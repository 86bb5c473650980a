-- ===== src/Relay/Dispatch.antt =====
-- coordinator/internal/relay/relay.go: Execute and ExecuteOn around the loop, and ErrCode, with the
-- frames of coordinator/internal/protocol/protocol.go that they build. The fresh key pair, job id and
-- nonce, the signed manifest and the outcome of the send are arguments, and so are the calls that
-- other goroutines make between the registration of the job and the deferred clean-up. The sampling
-- parameters that are floats, which no code reads, and the logging are left out.
pub mod Cleanup
pub mod Codes
mod Tests
use shared_compute.Common.{
  ℕ, String, Bool, true, Option, none, some, List, [], ◌∷◌, ◌++◌, if◌then◌else◌,
}
use shared_compute.Common.Int64.{Int64}
use shared_compute.Common.Dict
use shared_compute.Common.Sort.{Sorter}
use shared_compute.Crypto
use shared_compute.Crypto.{SealedPayload, Library}
use shared_compute.Jobs
use shared_compute.Jobs.{Manager}
use shared_compute.Jobs.Valid.{Op, run}
use shared_compute.Registry.{Provider, Registry, acquire_slot, release_slot}
use shared_compute.Registry.Slots.{SlotEvent, after_events}
use shared_compute.Scheduler
use shared_compute.Scheduler.{Requirements, pick}
use shared_compute.Relay.{
  ChatMessage, Codec, Job, Result, Failure, Outcome, waiting, finished, failed, Signal, State,
  context_done, deadline, provider_gone, bad_chunk, decrypt, bad_plaintext, invalid_result,
  write_failed, bad_done, provider_error, start, loop,
}

pub record SamplingParams : Type 0 where
  pub max_tokens : Int64
  pub top_k : Option Int64
  pub stop : List String
  pub seed : Option Int64

pub record Request : Type 0 where
  pub model : String
  pub messages : List ChatMessage
  pub params : SamplingParams
  pub min_tier : String
  pub min_context : Int64
  pub hw_class : String

pub record JobRequestPlaintext : Type 0 where
  pub job_id : String
  pub model : String
  pub messages : List ChatMessage
  pub params : SamplingParams
  pub stream : Bool

pub record JobRequest : Type 0 where
  pub job_id : String
  pub model : String
  pub deadline_ms : Int64
  pub sealed : SealedPayload
  pub manifest : Option String

-- json.Marshal of the plaintext, and a key's bytes as the box takes them.
pub record Deps (lib : Library) : Type 0 where
  pub codec : Codec lib
  pub marshal : JobRequestPlaintext → Option lib.Bytes
  pub key_of : List ℕ → lib.Bytes
  pub job_deadline_ms : Int64

-- What one call meets: `key_pair` is the public and the secret half, `none` a failure to draw it, and
-- so for `nonce`; `manifest` is what signJobManifest gave, and `sends` whether Send succeeds.
-- `manager_calls` and `slot_events` are the calls of others on the jobs manager, and on the slots of
-- the same provider; `signals` are what the loop receives.
pub record Call (lib : Library) : Type 0 where
  pub key_pair : Option (lib.Bytes × lib.Bytes)
  pub job_id : String
  pub nonce : Option lib.Bytes
  pub manifest : Option String
  pub sends : Bool
  pub manager_calls : List Op
  pub slot_events : List SlotEvent
  pub signals : List Signal
  pub accepts : List String → String → Bool

-- The shared state, with the job requests that were sent and to whom.
pub record World : Type 0 where
  pub reg : Registry
  pub jobs : Manager
  pub sent : List (String × JobRequest)

pub data ExecError : Type 0 where
  unpicked : Scheduler.Error → ExecError
  no_key no_plaintext no_seal : ExecError
  relayed : Failure → ExecError

pub data Ended : Type 0 where
  returned : Result → Ended
  errored : ExecError → Ended
  blocked : Ended

abbrev pub end_of : Outcome → Ended
end_of waiting = blocked
end_of (finished r) = returned r
end_of (failed f) = errored (relayed f)

-- A method called through the provider's pointer.
change_found : String → (Provider → Provider) → Registry → Option Provider → Registry
change_found id f reg none = reg
change_found id f reg (some p) = Dict.put reg id (f p)

abbrev pub change_provider : String → (Provider → Provider) → Registry → Registry
unfolding change_found
change_provider id f reg = change_found id f reg (Dict.get reg id)

abbrev pub requirements : Request → Requirements
requirements req = record {
  model = req.model;
  min_tier = req.min_tier;
  min_context = req.min_context;
  hw_class = req.hw_class;
}

pub with_jobs : World → Ended → Option Manager → Option (World × Ended)
with_jobs w e none = none
with_jobs w e (some jobs) = some (record w { jobs = jobs }, e)

module _ (lib : Library) (deps : Deps lib) (call : Call lib) where
  abbrev pub plaintext : Request → JobRequestPlaintext
  plaintext req = record {
    job_id = call.job_id;
    model = req.model;
    messages = req.messages;
    params = req.params;
    stream = true;
  }

  abbrev pub job_of : Provider → Request → lib.Bytes → Job lib
  job_of prov req secret = record {
    job_id = call.job_id;
    messages = req.messages;
    max_tokens = req.params.max_tokens;
    static_pk = deps.key_of prov.static_pk;
    secret = secret;
    provider_id = prov.id;
    trust_tier = prov.trust_tier;
    accepts = call.accepts;
  }

  abbrev pub request_frame : Request → SealedPayload → JobRequest
  request_frame req sealed = record {
    job_id = call.job_id;
    model = req.model;
    deadline_ms = deps.job_deadline_ms;
    sealed = sealed;
    manifest = call.manifest;
  }

  -- Register and AcquireSlot.
  pub enter : Provider → World → World
  enter prov w = record w {
    jobs = (Jobs.register call.job_id prov.id w.jobs).0;
    reg = change_provider prov.id acquire_slot w.reg;
  }

  -- The deferred ReleaseSlot and Close.
  pub leave : Provider → World → Ended → Option (World × Ended)
  unfolding with_jobs
  leave prov w e =
      with_jobs (record w { reg = change_provider prov.id release_slot w.reg }) e
        (Jobs.close call.job_id w.jobs)

  pub meanwhile : Provider → World → Option Manager → Option World
  meanwhile prov w none = none
  meanwhile prov w (some jobs) = some (record w {
    jobs = jobs;
    reg = change_provider prov.id (λ p. after_events p call.slot_events) w.reg;
  })

  -- From the send to the return.
  pub serve : Provider → Request → lib.Bytes → SealedPayload → Option World → Option (World × Ended)
  unfolding leave
  serve prov req secret sealed none = none
  serve prov req secret sealed (some w) =
      let o = (loop lib deps.codec (job_of prov req secret) call.signals start).1 in
      let sent = record w { sent = w.sent ++ (prov.id, request_frame req sealed) ∷ [] } in
      if call.sends
      then leave prov sent (end_of o)
      else leave prov w (errored (relayed provider_gone))

  pub dispatch : Provider → Request → lib.Bytes → SealedPayload → World → Option (World × Ended)
  unfolding enter meanwhile serve
  dispatch prov req secret sealed w =
      let e = enter prov w in
      serve prov req secret sealed (meanwhile prov e (run e.jobs call.manager_calls))

  seal_and_dispatch :
      Provider
      → Request
      → lib.Bytes × lib.Bytes
      → lib.Bytes
      → Option lib.Bytes
      → World
      → Option (World × Ended)
  unfolding dispatch
  seal_and_dispatch prov req keys raw none w = some (w, errored no_seal)
  seal_and_dispatch prov req keys raw (some nonce) w =
      dispatch prov req keys.1
        (Crypto.seal lib nonce raw (deps.key_of prov.static_pk) keys.1 keys.0) w

  marshal_and_seal :
      Provider → Request → lib.Bytes × lib.Bytes → Option lib.Bytes → World → Option (World × Ended)
  unfolding seal_and_dispatch
  marshal_and_seal prov req keys none w = some (w, errored no_plaintext)
  marshal_and_seal prov req keys (some raw) w = seal_and_dispatch prov req keys raw call.nonce w

  with_key : Provider → Request → Option (lib.Bytes × lib.Bytes) → World → Option (World × Ended)
  unfolding marshal_and_seal
  with_key prov req none w = some (w, errored no_key)
  with_key prov req (some keys) w = marshal_and_seal prov req keys (deps.marshal (plaintext req)) w

  -- `none` is a panic.
  pub execute_on : Provider → Request → World → Option (World × Ended)
  unfolding with_key
  execute_on prov req w = with_key prov req call.key_pair w

  pub execute_picked : Scheduler.Result (Option Provider) → Request → World → Option (World × Ended)
  unfolding execute_on
  execute_picked (Scheduler.err e) req w = some (w, errored (unpicked e))
  execute_picked (Scheduler.ok none) req w = none
  execute_picked (Scheduler.ok (some prov)) req w = execute_on prov req w

  pub execute : Sorter Provider → Request → World → Option (World × Ended)
  unfolding execute_picked
  execute sorter req w = execute_picked (pick sorter w.reg (requirements req)) req w

-- ErrCode: the code and the message.
abbrev pub gone_text : String × String
gone_text = ("provider_gone", "the assigned provider disconnected")

abbrev pub closed_text : String × String
closed_text = ("client_closed", "the request was cancelled")

abbrev pub internal_text : String × String
internal_text = ("internal", "the request could not be completed")

-- `cancelled` says whether the error of onDelta is a context's.
abbrev pub failure_code : Bool → Failure → String × String
failure_code cancelled provider_gone = gone_text
failure_code cancelled invalid_result =
    ("invalid_provider_result", "the assigned provider returned an invalid result")
failure_code cancelled deadline = ("deadline", "the job exceeded the coordinator deadline")
failure_code cancelled context_done = closed_text
failure_code cancelled write_failed = if cancelled then closed_text else internal_text
failure_code cancelled bad_chunk = internal_text
failure_code cancelled decrypt = internal_text
failure_code cancelled bad_plaintext = internal_text
failure_code cancelled bad_done = internal_text
failure_code cancelled (provider_error code) = internal_text

abbrev pub err_code : Bool → ExecError → String × String
err_code cancelled (unpicked Scheduler.no_provider) =
    ("no_provider", "no provider is currently serving this model")
err_code cancelled (unpicked Scheduler.tier_unmet) =
    ("trust_tier_unmet", "no connected provider meets the requested trust level")
err_code cancelled (unpicked Scheduler.caps_unmet) =
    ("capabilities_unmet", "no connected provider meets the model's resource requirements")
err_code cancelled no_key = internal_text
err_code cancelled no_plaintext = internal_text
err_code cancelled no_seal = internal_text
err_code cancelled (relayed f) = failure_code cancelled f
