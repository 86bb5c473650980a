-- ===== src/Hub/Tests.antt =====
-- A provider that registers, beats, goes silent twice and is gone, and the theorems of the hub at it.
use shared_compute.Common.{
  ◌≡◌, refl, String, Bool, true, false, none, some, List, [], ◌∷◌, ◌++◌, replicate, str_eq,
}
use shared_compute.Common.Dict
use shared_compute.Jobs.{Manager, new, register}
use shared_compute.Jobs.Valid.{IsValid, new-IsValid, register-IsValid}
use shared_compute.Jobs.Isolation.{Holds, register-Holds}
use shared_compute.Registry.{Provider}
use shared_compute.Registry.Tests.{provider, two_providers}
use shared_compute.Store.{new_mem}
use shared_compute.Store.Keys.{validate_provider_token}
use shared_compute.Hub.{
  Register, Wire, Coordinator, Read, frame, timed_out, registration, new_provider, check_frame,
  check_register, check_key, admit, tier_of, parse, parse_public_key, serve, handle_provider,
}
use shared_compute.Hub.Registration.{IsSound, registration-IsSound}
use shared_compute.Hub.Tier.{IsEvidenced, attesting, provider_of, registration-IsAttested}
use shared_compute.Attest.Tests as Device
use shared_compute.Hub.Loop.{serve_isolated, get-handle_provider}

abbrev frame_register : Register
frame_register = record {
  registration_token = "token";
  static_pk = "pk";
  capabilities = (provider "" "" 0 ("m" ∷ [])).capabilities;
  attestation = some (record { kind = "android_key"; evidence = "chain" });
}

-- A frame is its own type, and a job frame is of job "j".
abbrev wire : Wire
wire = record {
  envelope_of = λ raw. some (record { v = "0"; type_of = raw });
  register_of = λ raw. some frame_register;
  telemetry_of = λ raw. none;
  job_id_of = λ raw. some "j";
  decode = λ s. some (replicate 32 7);
  encode = λ b. "pk";
  android_key = λ evidence key. str_eq evidence "chain";
  account_token = λ token. false;
  heartbeat_seconds = 30;
}

abbrev jobs : Manager
jobs = (register "j" "p" new).0

abbrev coordinator : Coordinator
coordinator = record {
  reg = two_providers;
  jobs = jobs;
  store = new_mem (λ k. k) [] ("token" ∷ []);
  sent = [];
  reports = [];
  linked = [];
}

abbrev reads : List Read
reads = (frame "heartbeat" 5 ∷ frame "job_done" 6 ∷ []) ++ timed_out ∷ timed_out ∷ []

jobs-IsValid : IsValid jobs
jobs-IsValid = register-IsValid "j" "p" new new-IsValid

registration-IsSound_example :
    IsSound wire "r"
      (some "register")
      coordinator
      (registration wire "r" 1 (some "register") coordinator)
registration-IsSound_example = registration-IsSound wire "r" 1 (some "register") coordinator

abbrev phone : Provider
phone = new_provider "r" Device.device_key frame_register "device_attested" 1

phone_admitted :
    provider_of (registration (attesting Device.lib 1 wire) "r" 1 (some "register") coordinator)
    ≡ some phone
unfolding registration check_frame check_register check_key admit tier_of parse
    validate_provider_token Dict.get new_mem Dict.put parse_public_key
phone_admitted = rw Device.device_passes refl

registration-IsAttested_example : IsEvidenced Device.lib 1 wire (some "register") phone
unfolding new_provider
registration-IsAttested_example =
    registration-IsAttested Device.lib 1 wire "r" 1 (some "register") coordinator phone
      phone_admitted refl

get-handle_provider_example :
    (d : Coordinator) × (b : Bool) × (handle_provider wire "r" 1
        (some "register")
        true
        reads
        coordinator
      ≡ some (d, b))
    × IsValid d.jobs
    × (b ≡ true → (q : String) → Dict.get d.reg q ≡ Dict.get two_providers q)
unfolding Dict.get
get-handle_provider_example =
    get-handle_provider wire "r" 1 (some "register") true reads coordinator jobs-IsValid refl

j_Holds : Holds jobs "j" (record { provider_id = "p"; ch = 0 }) []
j_Holds = register-Holds "j" "p" new

serve_isolated_example :
    (d : Coordinator) × (b : Bool) × (serve wire (provider "q" "community" 0 []) 0 reads coordinator
      ≡ some (d, b))
    × IsValid d.jobs
    × Holds d.jobs "j" (record { provider_id = "p"; ch = 0 }) []
serve_isolated_example =
    serve_isolated wire (provider "q" "community" 0 []) 0 reads coordinator "j"
      (record { provider_id = "p"; ch = 0 }) [] jobs-IsValid j_Holds refl
