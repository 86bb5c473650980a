-- ===== src/Hub/Data.antt =====
-- coordinator/internal/wshub/wshub.go and coordinator/internal/protocol: the frames, what the handler
-- takes from the rest of the program, and the state that it changes.
use shared_compute.Common.{ℕ, String, Bool, Option, List}
use shared_compute.Common.Int64.{Int64}
use shared_compute.Jobs.{Manager}
use shared_compute.Registry.{Registry, Capabilities, Telemetry}
use shared_compute.Store.{Mem}

pub record Envelope : Type 0 where
  pub v : String
  pub type_of : String

pub record Frame : Type 0 where
  pub type_of : String
  pub raw : String

pub record Attestation : Type 0 where
  pub kind : String
  pub evidence : String

pub record Register : Type 0 where
  pub registration_token : String
  pub static_pk : String
  pub capabilities : Capabilities
  pub attestation : Option Attestation

pub record RegisterAck : Type 0 where
  pub ok : Bool
  pub error : String
  pub provider_id : String
  pub trust_tier : String
  pub accepted_models : List String
  pub heartbeat_seconds : Int64

pub data Sent : Type 0 where
  register_ack : RegisterAck → Sent
  heartbeat_ack : ℕ → Sent

-- `none` is an error of json.Unmarshal or of base64. `android_key` is whether verifyAndroidKey accepts
-- the evidence for a key, `account_token` is ValidProviderToken, false without account sign-in.
pub record Wire : Type 0 where
  pub envelope_of : String → Option Envelope
  pub register_of : String → Option Register
  pub telemetry_of : String → Option Telemetry
  pub job_id_of : String → Option String
  pub decode : String → Option (List ℕ)
  pub encode : List ℕ → String
  pub android_key : String → List ℕ → Bool
  pub account_token : String → Bool
  pub heartbeat_seconds : Int64

pub record Coordinator : Type 0 where
  pub reg : Registry
  pub jobs : Manager
  pub store : Mem
  pub sent : List Sent
  pub reports : List (List ℕ × String)
  pub linked : List (String × String)

-- What a read of the socket gives: a frame and the time, a timeout, or another error.
pub data Read : Type 0 where
  frame : String → ℕ → Read
  timed_out broken : Read
