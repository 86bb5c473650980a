-- ===== src/Manifest/Data.antt =====
-- coordinator/internal/manifest/manifest.go: the manifest, its limits, and the functions of the standard
-- library that sign and encode it.
use Prim.Native.Char.{code}
use Prim.Native.String.{len}
use shared_compute.Common.{
  ℕ, ◌≡◌, String, Bool, true, false, ◌&&◌, ◌||◌, Option, some, List, [], ◌∷◌, leb,
}
use shared_compute.Common.Int64.{Int64, lt64, le64}

pub record ResourceLimits : Type 0 where
  pub max_runtime_ms : Int64
  pub max_memory_mb : Int64
  pub max_storage_mb : Int64
  pub max_input_bytes : Int64
  pub max_output_tokens : Int64
  pub max_cpu_duty_cycle_pct : Int64

pub record WorkloadManifest : Type 0 where
  pub manifest_version : Int64
  pub job_id : String
  pub lease_id : String
  pub workload_id : String
  pub customer_id : String
  pub device_pk : String
  pub runtime_id : String
  pub runtime_version : String
  pub runtime_hash : String
  pub model_id : String
  pub model_hash : String
  pub operation : String
  pub input_hash : String
  pub resource_limits : ResourceLimits
  pub network_policy : String
  pub created_at : Int64
  pub expires_at : Int64
  pub nonce : String

pub record SignedManifest : Type 0 where
  pub manifest : WorkloadManifest
  pub signer_id : String
  pub signature : String

pub record NodeSafetyPolicy : Type 0 where
  pub max_runtime_ms : Int64
  pub max_memory_mb : Int64
  pub max_storage_mb : Int64
  pub max_input_bytes : Int64
  pub max_output_tokens : Int64
  pub max_cpu_duty_cycle_pct : Int64
  pub max_lease_seconds : Int64
  pub max_clock_skew_seconds : Int64

abbrev pub default_node_policy : NodeSafetyPolicy
default_node_policy = record {
  max_runtime_ms = 120_000;
  max_memory_mb = 8_192;
  max_storage_mb = 16_384;
  max_input_bytes = 1_048_576;
  max_output_tokens = 4_096;
  max_cpu_duty_cycle_pct = 80;
  max_lease_seconds = 300;
  max_clock_skew_seconds = 30;
}

abbrev pub manifest_version : Int64
manifest_version = 1

abbrev pub operation_inference : String
operation_inference = "inference"

abbrev pub network_policy_none : String
network_policy_none = "NONE"

-- The code points of a text.
abbrev pub codes : String → List ℕ
codes String.[] = []
codes (String.◌∷◌ c s) = code c ∷ codes s

abbrev pub has_upper_hex : List ℕ → Bool
has_upper_hex [] = false
has_upper_hex (c ∷ cs) = leb b'A' c && leb c b'F' || has_upper_hex cs

-- What packages ed25519, sha256, base64, hex, json and bytes give. A signature by a key verifies under
-- its public half and has 64 bytes; what is encoded is decoded; a sum has 32 bytes, and its hexadecimal
-- form 64 lowercase digits.
pub record Library : Type 1 where
  pub Bytes : Type 0
  pub PrivateKey : Type 0
  pub PublicKey : Type 0
  pub size : Bytes → ℕ
  pub key_from_seed : Bytes → PrivateKey
  pub public_of : PrivateKey → PublicKey
  pub sign : PrivateKey → Bytes → Bytes
  pub verify : PublicKey → Bytes → Bytes → Bool
  pub encode : Bytes → String
  pub decode : String → Option Bytes
  pub marshal : WorkloadManifest → Option Bytes
  pub trim_newlines : Bytes → Bytes
  pub sum256 : Bytes → Bytes
  pub bytes_of : String → Bytes
  pub hex_encode : Bytes → String
  pub hex_decode : String → Option Bytes
  pub decode-encode : (b : Bytes) → decode (encode b) ≡ some b
  pub verify-sign : (k : PrivateKey) (m : Bytes) → verify (public_of k) m (sign k m) ≡ true
  pub size-sign : (k : PrivateKey) (m : Bytes) → size (sign k m) ≡ 64
  pub len-hex_encode : (b : Bytes) → len (hex_encode (sum256 b)) ≡ 64
  pub hex_decode-hex_encode : (b : Bytes) → hex_decode (hex_encode (sum256 b)) ≡ some (sum256 b)
  pub hex_encode_lower : (b : Bytes) → has_upper_hex (codes (hex_encode (sum256 b))) ≡ false

abbrev pub exceeds : ResourceLimits → NodeSafetyPolicy → Bool
exceeds rl pol =
    lt64 pol.max_runtime_ms rl.max_runtime_ms
    || lt64 pol.max_memory_mb rl.max_memory_mb
    || lt64 pol.max_storage_mb rl.max_storage_mb
    || lt64 pol.max_input_bytes rl.max_input_bytes
    || lt64 pol.max_output_tokens rl.max_output_tokens
    || lt64 pol.max_cpu_duty_cycle_pct rl.max_cpu_duty_cycle_pct

-- One of the values is not positive.
abbrev pub has_nonpositive : ResourceLimits → Bool
has_nonpositive rl =
    le64 rl.max_runtime_ms 0
    || le64 rl.max_memory_mb 0
    || le64 rl.max_storage_mb 0
    || le64 rl.max_input_bytes 0
    || le64 rl.max_output_tokens 0
    || le64 rl.max_cpu_duty_cycle_pct 0
