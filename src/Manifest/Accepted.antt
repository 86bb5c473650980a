-- ===== src/Manifest/Accepted.antt =====
-- What a node's acceptance of a manifest says of it, in plain numbers.
use Prim.Native.String.{len}
use shared_compute.Common.{ℕ, ◌+◌, ◌^◌, ◌<◌, ◌≤◌, ◌≡◌, ◌≢◌, ◌⊎◌, String, true, false, some}
use shared_compute.Common.Int64.{Int64, lt64, le64}
use shared_compute.Common.Dict.{Dict}
use shared_compute.Manifest.{
  ResourceLimits, WorkloadManifest, NodeSafetyPolicy, Library, has_upper_hex, codes,
}

-- A positive value of at most a ceiling, as signed numbers.
abbrev pub Fits : Int64 → Int64 → Type 0
Fits value ceiling = (lt64 0 value ≡ true) × (le64 value ceiling ≡ true)

-- Each limit is positive and at most the node's.
pub record FitsAll (rl : ResourceLimits) (pol : NodeSafetyPolicy) : Type 0 where
  pub runtime : Fits rl.max_runtime_ms pol.max_runtime_ms
  pub memory : Fits rl.max_memory_mb pol.max_memory_mb
  pub storage : Fits rl.max_storage_mb pol.max_storage_mb
  pub input : Fits rl.max_input_bytes pol.max_input_bytes
  pub output : Fits rl.max_output_tokens pol.max_output_tokens
  pub duty : Fits rl.max_cpu_duty_cycle_pct pol.max_cpu_duty_cycle_pct
  pub duty_pct : le64 rl.max_cpu_duty_cycle_pct 100 ≡ true

-- The bytes that a text encodes, and how many they are.
abbrev pub Encodes : (lib : Library) → String → ℕ → Type 0
Encodes lib text n = (raw : lib.Bytes) × (lib.decode text ≡ some raw) × (lib.size raw ≡ n)

-- 64 digits of a hash, none of them a capital letter.
pub record IsHash (text : String) : Type 0 where
  pub digits : len text ≡ 64
  pub lower : has_upper_hex (codes text) ≡ false

pub record IsWorkload (lib : Library) (m : WorkloadManifest) : Type 0 where
  pub operation : m.operation ≡ "inference"
  pub network : m.network_policy ≡ "NONE"
  pub job : m.job_id ≢ ""
  pub lease : m.lease_id ≢ ""
  pub workload : m.workload_id ≢ ""
  pub model : m.model_id ≢ ""
  pub runtime : m.runtime_id ≢ ""
  pub device : Encodes lib m.device_pk 32
  pub nonce : Encodes lib m.nonce 24
  pub runtime_hash : IsHash m.runtime_hash
  pub model_hash : IsHash m.model_hash
  pub input_hash : IsHash m.input_hash

-- The manifest lives at the time, for no longer than the node's lease and the clock skew.
pub record IsAlive (m : WorkloadManifest) (pol : NodeSafetyPolicy) (device_pk : String)
    (now : Int64) : Type 0 where
  pub device : (device_pk ≡ "") ⊎ (m.device_pk ≡ device_pk)
  pub begun : m.created_at ≤ now + pol.max_clock_skew_seconds
  pub alive : now < m.expires_at
  pub lease : m.expires_at ≤ m.created_at + pol.max_lease_seconds + pol.max_clock_skew_seconds

-- Times and spans of less than 2 ^ 61 seconds, which do not wrap around.
pub record IsTimed (m : WorkloadManifest) (pol : NodeSafetyPolicy) (now : Int64) : Type 0 where
  pub created : m.created_at < 2 ^ 61
  pub expires : m.expires_at < 2 ^ 61
  pub time : now < 2 ^ 61
  pub lease : pol.max_lease_seconds < 2 ^ 61
  pub skew : pol.max_clock_skew_seconds < 2 ^ 61
