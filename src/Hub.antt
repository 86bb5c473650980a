-- ===== src/Hub.antt =====
-- coordinator/internal/wshub/wshub.go: the connection of one provider, from its register frame to its
-- removal, with Parse of coordinator/internal/protocol/wire.go, the frames of
-- coordinator/internal/protocol/protocol.go, ParsePublicKey of coordinator/internal/crypto/box.go and
-- Verify of coordinator/internal/attest/attest.go. The socket is the list of what its reads give; JSON,
-- base64, the check of an Android key chain and the account tokens are parameters. The frames that are
-- sent are recorded, and so are the benchmark reports, whose numbers are floats, and the devices that
-- are linked to an account. `none` is a panic.
pub mod Data
pub mod Registration
pub mod Loop
pub mod Tier
mod Tests
pub use Data.*
use shared_compute.Common.{
  ℕ, ◌+◌, String, Bool, true, false, not, ◌&&◌, ◌||◌, Option, none, some, List, [], ◌∷◌, ◌++◌,
  length, ltb, ◌==◌, str_eq, if◌then◌else◌,
}
use shared_compute.Common.Int64.{Int64}
use shared_compute.Common.Dict
use shared_compute.Jobs
use shared_compute.Jobs.{Manager, Kind, chunk, done, error}
use shared_compute.Registry
use shared_compute.Registry.{Provider, Registry, Capabilities, Telemetry}
use shared_compute.Store.{Mem, ProviderRecord}
use shared_compute.Store.Keys.{validate_provider_token, upsert_provider}

abbrev pub version : String
version = "0"

check_envelope : Option Envelope → String → Option Frame
check_envelope none raw = none
check_envelope (some env) raw =
    if not (str_eq env.v version)
    then none
    else if str_eq env.type_of ""
    then none
    else some (record { type_of = env.type_of; raw = raw })

pub parse : Wire → String → Option Frame
unfolding check_envelope
parse w raw = check_envelope (w.envelope_of raw) raw

pub check_size : Option (List ℕ) → Option (List ℕ)
check_size none = none
check_size (some key) = if not (length key == 32) then none else some key

pub parse_public_key : Wire → String → Option (List ℕ)
unfolding check_size
parse_public_key w b64 = check_size (w.decode b64)

-- The tier of a result of attest.Verify.
pub verify : Wire → Attestation → List ℕ → String
verify w ev key =
    if str_eq ev.kind "" || str_eq ev.kind "none"
    then "community"
    else if str_eq ev.kind "android_key"
    then (if w.android_key ev.evidence key then "device_attested" else "community")
    else "community"

pub tier_of : Wire → Option Attestation → List ℕ → String
unfolding verify
tier_of w none key = "community"
tier_of w (some ev) key =
    if not (str_eq ev.kind "") && not (str_eq ev.kind "none") then verify w ev key else "community"

abbrev pub send : Sent → Coordinator → Coordinator
send s c = record c { sent = c.sent ++ s ∷ [] }

abbrev pub refusal : String → Sent
refusal reason = register_ack (record {
  ok = false;
  error = reason;
  provider_id = "";
  trust_tier = "";
  accepted_models = [];
  heartbeat_seconds = 0;
})

abbrev no_telemetry : Telemetry
no_telemetry = record {
  active_jobs = 0;
  queue_depth = 0;
  mem_available_mb = 0;
  thermal_state = "";
  battery_pct = none;
  charging = none;
  network = "";
}

-- `id` is the fresh UUID.
pub new_provider : String → List ℕ → Register → String → ℕ → Provider
new_provider id key reg tier now = record {
  id = id;
  static_pk = key;
  capabilities = reg.capabilities;
  trust_tier = tier;
  telemetry = no_telemetry;
  connected_at = now;
  last_seen = now;
  active = 0;
  draining = false;
}

-- LastSeen is left at the zero time.
abbrev provider_record : String → Register → ProviderRecord
provider_record id reg = record {
  provider_id = id;
  static_pk = reg.static_pk;
  platform = reg.capabilities.platform;
  arch = reg.capabilities.arch;
  backend = reg.capabilities.backend;
  last_seen = 0;
}

-- A registration is refused, or it is admitted and the provider stands in the registry.
pub data Admission : Type 0 where
  refused : Coordinator → Admission
  admitted : Provider → Coordinator → Admission

set_telemetry : Option Telemetry → Provider → Provider
set_telemetry none p = p
set_telemetry (some t) p = record p { telemetry = t }

pub changed : String → (Provider → Provider) → Registry → Option Provider → Registry
changed id f reg none = reg
changed id f reg (some p) = Dict.put reg id (f p)

-- An assignment through the provider's pointer.
abbrev pub change_provider : String → (Provider → Provider) → Coordinator → Coordinator
change_provider id f c = record c { reg = changed id f c.reg (Dict.get c.reg id) }

module _ (w : Wire) where
  -- Add, LinkProviderDevice, UpsertProvider and the ack.
  pub admit : String → ℕ → Register → List ℕ → Coordinator → Admission
  unfolding tier_of new_provider
  admit id now reg key c =
      let p = new_provider id key reg (tier_of w reg.attestation key) now in
      admitted p (
        send
          (register_ack (record {
            ok = true;
            error = "";
            provider_id = id;
            trust_tier = p.trust_tier;
            accepted_models = reg.capabilities.models;
            heartbeat_seconds = w.heartbeat_seconds;
          }))
          (record c {
            reg = Registry.add c.reg p;
            linked =
                if w.account_token reg.registration_token
                then c.linked ++ (reg.registration_token, w.encode key) ∷ []
                else c.linked;
            store = upsert_provider (provider_record id reg) c.store;
          }))

  check_key : String → ℕ → Register → Option (List ℕ) → Coordinator → Admission
  unfolding admit
  check_key id now reg none c = refused (send (refusal "bad-key") c)
  check_key id now reg (some key) c = admit id now reg key c

  check_register : String → ℕ → Option Register → Coordinator → Admission
  unfolding check_key
  check_register id now none c = refused (send (refusal "internal") c)
  check_register id now (some reg) c =
      if not (validate_provider_token c.store reg.registration_token)
        && not (w.account_token reg.registration_token)
      then refused (send (refusal "bad-token") c)
      else check_key id now reg (parse_public_key w reg.static_pk) c

  check_frame : String → ℕ → Option Frame → Coordinator → Admission
  unfolding check_register
  check_frame id now none c = refused (send (refusal "protocol-version") c)
  check_frame id now (some f) c =
      if not (str_eq f.type_of "register")
      then refused (send (refusal "protocol-version") c)
      else check_register id now (w.register_of f.raw) c

  -- The first frame, `none` if none came in time.
  pub registration : String → ℕ → Option String → Coordinator → Admission
  unfolding check_frame
  registration id now none c = refused c
  registration id now (some raw) c = check_frame id now (parse w raw) c

  pub with_jobs : Coordinator → Option (Manager × Bool) → Option Coordinator
  with_jobs c none = none
  with_jobs c (some (jobs, sent)) = some (record c { jobs = jobs })

  pub deliver_probed : String → String → Kind → Option String → Coordinator → Option Coordinator
  unfolding with_jobs
  deliver_probed pid raw kind none c = some c
  deliver_probed pid raw kind (some job_id) c =
      if str_eq job_id ""
      then some c
      else with_jobs c (Jobs.deliver job_id pid (record { kind = kind; raw = raw }) c.jobs)

  pub deliver : String → String → Kind → Coordinator → Option Coordinator
  unfolding deliver_probed
  deliver pid raw kind c = deliver_probed pid raw kind (w.job_id_of raw) c

  -- `p` is the provider of the connection; `now` is the time.
  pub dispatch : Provider → ℕ → Frame → Coordinator → Option Coordinator
  unfolding deliver set_telemetry changed
  dispatch p now f c =
      if str_eq f.type_of "heartbeat"
      then some
          (send (heartbeat_ack now) (change_provider p.id (set_telemetry (w.telemetry_of f.raw)) c))
      else if str_eq f.type_of "model_ready"
      then some c
      else if str_eq f.type_of "benchmark_report"
      then some (record c { reports = c.reports ++ (p.static_pk, f.raw) ∷ [] })
      else if str_eq f.type_of "job_chunk"
      then deliver p.id f.raw chunk c
      else if str_eq f.type_of "job_done"
      then deliver p.id f.raw done c
      else if str_eq f.type_of "job_error"
      then deliver p.id f.raw error c
      else some c

  pub on_frame : Provider → ℕ → Option Frame → Coordinator → Option Coordinator
  unfolding dispatch
  on_frame p now none c = some c
  on_frame p now (some f) c =
      dispatch p now f (change_provider p.id (λ q. record q { last_seen = now }) c)

  pub then_serve :
      (Coordinator → Option (Coordinator × Bool)) → Option Coordinator → Option (Coordinator × Bool)
  then_serve rest none = none
  then_serve rest (some c) = rest c

  -- The main loop, and whether it has returned. `missed` counts the timeouts in a row.
  pub serve : Provider → ℕ → List Read → Coordinator → Option (Coordinator × Bool)
  unfolding on_frame then_serve
  serve p missed [] c = some (c, false)
  serve p missed (frame raw now ∷ rs) c =
      then_serve (λ d. serve p 0 rs d) (on_frame p now (parse w raw) c)
  serve p missed (timed_out ∷ rs) c =
      let rest = serve p (missed + 1) rs c in if ltb (missed + 1) 2 then rest else some (c, true)
  serve p missed (broken ∷ rs) c = some (c, true)

  -- The deferred Remove.
  pub leave : String → Option (Coordinator × Bool) → Option (Coordinator × Bool)
  leave id none = none
  leave id (some (c, false)) = some (c, false)
  leave id (some (c, true)) = some (record c { reg = Registry.remove c.reg id }, true)

  pub after_admission : Bool → List Read → Admission → Option (Coordinator × Bool)
  unfolding serve leave
  after_admission acked reads (refused c) = some (c, true)
  after_admission acked reads (admitted p c) =
      leave p.id (if acked then serve p 0 reads c else some (c, true))

  -- `acked` says whether the ack could be sent.
  pub handle_provider :
      String → ℕ → Option String → Bool → List Read → Coordinator → Option (Coordinator × Bool)
  unfolding after_admission registration
  handle_provider id now first acked reads c =
      after_admission acked reads (registration id now first c)
