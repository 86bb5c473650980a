-- ===== src/Registry/Tests.antt =====
-- A provider and a registry, and the theorems of their counters and models at them.
use shared_compute.Common.{ℕ, ◌≡◌, refl, String, true, false, none, List, [], ◌∷◌}
use shared_compute.Registry.{Provider, Registry, release_slot}
use shared_compute.Registry.Slots.{SlotEvent, starts, ends, running}

abbrev pub provider : String → String → ℕ → List String → Provider
provider id tier active served = record {
  id = id;
  static_pk = [];
  capabilities = record {
    platform = "macos";
    arch = "arm64";
    cpu = "M2";
    gpu = "";
    ram_mb = 16_384;
    vram_mb = 0;
    backend = "llama";
    hardware_class = "MEDIUM";
    max_context = 8192;
    models = served;
    security = record {
      hardware_key = true;
      secure_boot = true;
      measured_boot = false;
      runtime_attested = false;
      confidential_memory = false;
      confidential_gpu = false;
    };
  };
  trust_tier = tier;
  telemetry = record {
    active_jobs = 0;
    queue_depth = 0;
    mem_available_mb = 4096;
    thermal_state = "nominal";
    battery_pct = none;
    charging = none;
    network = "";
  };
  connected_at = 0;
  last_seen = 0;
  active = active;
  draining = false;
}

abbrev history : List SlotEvent
history = ends ∷ starts ∷ starts ∷ ends ∷ starts ∷ []

two_run : running 0 history ≡ 2
two_run = refl

abbrev pub two_providers : Registry
two_providers =
    ("p", provider "p" "community" 1 ("m" ∷ "n" ∷ []))
    ∷ ("q", provider "q" "device_attested" 0 ("n" ∷ []))
    ∷ []

released_idle : (release_slot (provider "p" "community" 0 [])).active ≡ 0
unfolding release_slot
released_idle = refl
