-- ===== src/Registry.antt =====
-- coordinator/internal/registry/registry.go, with the capabilities and the telemetry of
-- coordinator/internal/protocol/protocol.go that a provider carries. A provider's methods return
-- the provider that they leave; the registry maps an id to the provider as it stands. The closures
-- `Send` and `Close`, and `cpu_load`, which no code reads, are left out.
pub mod Slots
pub mod Tests
use shared_compute.Common.{
  ℕ, String, Bool, false, ◌||◌, Option, List, [], ◌∷◌, map, length, str_eq, if◌then◌else◌,
}
use shared_compute.Common.Int64.{Int64, add64, neg64, is_neg}
use shared_compute.Common.Dict
use shared_compute.Common.Dict.{Dict, StringSet}

pub record SecurityCapabilities : Type 0 where
  pub hardware_key : Bool
  pub secure_boot : Bool
  pub measured_boot : Bool
  pub runtime_attested : Bool
  pub confidential_memory : Bool
  pub confidential_gpu : Bool

pub record Capabilities : Type 0 where
  pub platform : String
  pub arch : String
  pub cpu : String
  pub gpu : String
  pub ram_mb : Int64
  pub vram_mb : Int64
  pub backend : String
  pub hardware_class : String
  pub max_context : Int64
  pub models : List String
  pub security : SecurityCapabilities

-- `BatteryPct` and `Charging` are pointers: nil is `none`.
pub record Telemetry : Type 0 where
  pub active_jobs : Int64
  pub queue_depth : Int64
  pub mem_available_mb : Int64
  pub thermal_state : String
  pub battery_pct : Option Int64
  pub charging : Option Bool
  pub network : String

pub record Provider : Type 0 where
  pub id : String
  pub static_pk : List ℕ
  pub capabilities : Capabilities
  pub trust_tier : String
  pub telemetry : Telemetry
  pub connected_at : ℕ
  pub last_seen : ℕ
  pub active : Int64
  pub draining : Bool

abbrev pub load : Provider → Int64 × Bool
load p = (p.active, p.draining)

pub add_active : Int64 → Provider → Provider
add_active n p =
    let active = add64 p.active n in record p { active = if is_neg active then 0 else active }

pub acquire_slot : Provider → Provider
unfolding add_active
acquire_slot p = add_active 1 p

pub release_slot : Provider → Provider
unfolding add_active
release_slot p = add_active (neg64 1) p

unfoldable pub set_draining : Bool → Provider → Provider
set_draining d p = record p { draining = d }

pub contains : String → List String → Bool
contains model [] = false
contains model (m ∷ ms) = str_eq m model || contains model ms

unfoldable pub serves : Provider → String → Bool
unfolding contains
serves p model = contains model p.capabilities.models

abbrev pub Registry : Type 0
Registry = Dict Provider

abbrev pub new : Registry
new = []

unfoldable pub add : Registry → Provider → Registry
add r p = Dict.put r p.id p

unfoldable pub remove : Registry → String → Registry
remove r id = Dict.delete r id

unfoldable pub lookup : Registry → String → Option Provider
lookup r id = Dict.get r id

unfoldable pub snapshot : Registry → List Provider
snapshot r = map (λ e. e.1) r

unfoldable pub count : Registry → ℕ
count r = length r

mark_models : List String → StringSet → StringSet
mark_models [] seen = seen
mark_models (m ∷ ms) seen = mark_models ms (Dict.put seen m tt)

mark_all : List Provider → StringSet → StringSet
unfolding mark_models
mark_all [] seen = seen
mark_all (p ∷ ps) seen = mark_all ps (mark_models p.capabilities.models seen)

-- The models that some connected provider advertises, each once.
pub models : Registry → List String
unfolding mark_all snapshot
models r = map (λ e. e.0) (mark_all (snapshot r) [])
