-- ===== src/Relay/Dispatch/Tests.antt =====
-- A request to a connected provider, and the theorems of the dispatch at it.
use shared_compute.Common.{◌≡◌, refl, true, false, none, some, [], ◌∷◌, ◌++◌}
use shared_compute.Crypto
use shared_compute.Crypto.Tests.{plain_library}
use shared_compute.Jobs.{new, has}
use shared_compute.Jobs.Valid.{IsValid, closes, new-IsValid, has-new}
use shared_compute.Registry.{Provider}
use shared_compute.Registry.Tests.{provider, two_providers}
use shared_compute.Registry.Slots.{starts}
use shared_compute.Relay.{drained}
use shared_compute.Relay.Tests.{codec}
use shared_compute.Relay.Dispatch.{Request, JobRequest, Deps, Call, World, Ended, execute_on}
use shared_compute.Relay.Dispatch.Cleanup.{has-execute_on, open-execute_on}

abbrev deps : Deps plain_library
deps = record {
  codec = codec;
  marshal = λ pt. some pt.model;
  key_of = λ bytes. "pk";
  job_deadline_ms = 60_000;
}

abbrev request : Request
request = record {
  model = "m";
  messages = record { role = "user"; content = "hey?" } ∷ [];
  params = record { max_tokens = 2; top_k = none; stop = []; seed = none };
  min_tier = "";
  min_context = 0;
  hw_class = "";
}

-- The provider drops while another of its jobs starts.
abbrev call : Call plain_library
call = record {
  key_pair = some ("epk", "secret");
  job_id = "j";
  nonce = some "nonce";
  manifest = none;
  sends = true;
  manager_calls = closes "k" ∷ [];
  slot_events = starts ∷ [];
  signals = drained ∷ [];
  accepts = λ past d. true;
}

abbrev world : World
world = record { reg = two_providers; jobs = new; sent = [] }

abbrev chosen : Provider
chosen = provider "p" "community" 1 ("m" ∷ "n" ∷ [])

has-execute_on_example :
    (w' : World) × (e : Ended) × (execute_on plain_library deps call chosen request world
      ≡ some (w', e))
    × IsValid w'.jobs
    × (has "j" w'.jobs ≡ false)
has-execute_on_example =
    has-execute_on plain_library deps call chosen request world new-IsValid (has-new "j")

abbrev ended :
    (w' : World) × (e : Ended) × (execute_on plain_library deps call chosen request world
      ≡ some (w', e))
    × IsValid w'.jobs
    × (has "j" w'.jobs ≡ false)
ended = has-execute_on plain_library deps call chosen request world new-IsValid (has-new "j")

open-execute_on_example :
    (frame : JobRequest) × (ended.0.sent ≡ [] ++ ("p", frame) ∷ [])
    × (frame.job_id ≡ "j")
    × (Crypto.open_sealed plain_library frame.sealed "secret" "pk" ≡ some "m")
open-execute_on_example =
    open-execute_on plain_library deps call chosen request world ended.0 ended.1 "epk" "secret" "pk"
      "m" "nonce" refl refl refl refl refl refl ended.2
