-- ===== src/Manifest.antt =====
-- coordinator/internal/manifest/manifest.go: the signed authorization of one job. Ed25519, SHA-256,
-- base64, hexadecimal and the JSON encoder are parameters with their documented contracts. An error is
-- its reason, and `none` is no error.
pub mod Data
pub mod Limits
pub mod Sound
pub mod Accepted
pub mod Job
mod Tests
pub use Data.*
use Prim.Native.Char.{code}
use Prim.Native.String.{len}
use shared_compute.Common.{
  ℕ, ◌≡◌, String, Bool, true, false, not, ◌&&◌, ◌||◌, Option, none, some, List, [], ◌∷◌, ◌==◌, leb,
  str_eq, if◌then◌else◌,
}
use shared_compute.Common.Int64.{Int64, add64, sub64, lt64, le64, eq64, div64}
use shared_compute.Common.Dict
use shared_compute.Common.Dict.{Dict}

unfoldable pub default_limits : Int64 → ResourceLimits
default_limits max_output_tokens = record {
  max_runtime_ms = 120_000;
  max_memory_mb = 6_144;
  max_storage_mb = 12_288;
  max_input_bytes = 262_144;
  max_output_tokens =
      if le64 max_output_tokens 0 || lt64 4096 max_output_tokens then 4096 else max_output_tokens;
  max_cpu_duty_cycle_pct = 75;
}

unfoldable pub lease_seconds : Int64 → Int64
lease_seconds deadline_ms =
    let s = div64 deadline_ms 1000 in
    let s' = if lt64 s 30 then 30 else s in if lt64 240 s' then 240 else s'

pub first_error : Option String → Option String → Option String
first_error none rest = rest
first_error (some reason) rest = some reason

module _ (lib : Library) where
  pub record LocalSigner : Type 0 where
    pub id : String
    pub key : lib.PrivateKey
    pub pub_key : lib.PublicKey

  -- The outcomes of NewSigner.
  pub data NewSigner : Type 0 where
    disabled : NewSigner
    bad_key : String → NewSigner
    signer : LocalSigner → NewSigner

  pub with_seed : String → Option lib.Bytes → NewSigner
  with_seed id none = bad_key "encoding"
  with_seed id (some seed) =
      if not (lib.size seed == 32)
      then bad_key "size"
      else signer (record {
        id = if str_eq id "" then "signer-v1" else id;
        key = lib.key_from_seed seed;
        pub_key = lib.public_of (lib.key_from_seed seed);
      })

  pub new_signer : String → String → NewSigner
  unfolding with_seed
  new_signer id seed = if str_eq seed "" then disabled else with_seed id (lib.decode seed)

  trimmed : Option lib.Bytes → Option lib.Bytes
  trimmed none = none
  trimmed (some raw) = some (lib.trim_newlines raw)

  unfoldable pub canonical_bytes : WorkloadManifest → Option lib.Bytes
  unfolding trimmed
  canonical_bytes m = trimmed (lib.marshal m)

  abbrev pub sized : ℕ → Option lib.Bytes → Bool
  sized n none = false
  sized n (some raw) = lib.size raw == n

  abbrev pub is_b64_bytes : String → ℕ → Bool
  is_b64_bytes s n = sized n (lib.decode s)

  abbrev pub is_decoded : Option lib.Bytes → Bool
  is_decoded none = false
  is_decoded (some raw) = true

  abbrev pub is_sha256_hex : String → Bool
  is_sha256_hex s =
      if not (len s == 64)
      then false
      else if not (is_decoded (lib.hex_decode s))
      then false
      else not (has_upper_hex (codes s))

  pub sha256_hex : String → String
  sha256_hex s = lib.hex_encode (lib.sum256 (lib.bytes_of s))

  pub validate_structure : WorkloadManifest → Option String
  validate_structure m =
      if not (eq64 m.manifest_version manifest_version)
      then some "unsupported manifest_version"
      else if not (str_eq m.operation operation_inference)
      then some "operation not allowed"
      else if not (str_eq m.network_policy network_policy_none)
      then some "network_policy not allowed"
      else if str_eq m.job_id "" || str_eq m.lease_id "" || str_eq m.workload_id ""
      then some "missing job/lease/workload id"
      else if not (is_b64_bytes m.device_pk 32)
      then some "device_pk must be 32 base64 bytes"
      else if not (is_b64_bytes m.nonce 24)
      then some "nonce must be 24 base64 bytes"
      else if not (is_sha256_hex m.runtime_hash)
          || not (is_sha256_hex m.model_hash)
          || not (is_sha256_hex m.input_hash)
      then some "runtime/model/input hash must be lowercase sha-256"
      else if str_eq m.model_id "" || str_eq m.runtime_id ""
      then some "missing runtime_id or model_id"
      else if has_nonpositive m.resource_limits
      then some "resource_limits values must be positive"
      else if lt64 100 m.resource_limits.max_cpu_duty_cycle_pct
      then some "max_cpu_duty_cycle_pct over 100"
      else none

  abbrev pub stamp : WorkloadManifest → WorkloadManifest
  stamp m = record m {
    manifest_version = manifest_version;
    operation = operation_inference;
    network_policy = network_policy_none;
  }

  -- The outcomes of Sign.
  pub data Signing : Type 0 where
    unsigned : String → Signing
    signed : SignedManifest → Signing

  pub sign_bytes : LocalSigner → WorkloadManifest → Option lib.Bytes → Signing
  sign_bytes s m none = unsigned "canonicalization failed"
  sign_bytes s m (some cb) =
      signed (record { manifest = m; signer_id = s.id; signature = lib.encode (lib.sign s.key cb) })

  -- The signature that Cloud KMS answers is verified before it is trusted; `none` is an error of the
  -- call.
  pub kms_answer :
      String → lib.PublicKey → Option lib.Bytes → WorkloadManifest → Option lib.Bytes → Signing
  kms_answer id pub_key answer m none = unsigned "canonicalization failed"
  kms_answer id pub_key none m (some cb) = unsigned "kms sign"
  kms_answer id pub_key (some sig) m (some cb) =
      if not (lib.size sig == 64) || not (lib.verify pub_key cb sig)
      then unsigned "kms sign: signature failed local verification"
      else signed (record { manifest = m; signer_id = id; signature = lib.encode sig })

  pub unless_invalid : Option String → Signing → Signing
  unless_invalid none s = s
  unless_invalid (some reason) s = unsigned reason

  pub sign : LocalSigner → WorkloadManifest → Signing
  unfolding unless_invalid sign_bytes
  sign s m =
      let m' = stamp m in
      unless_invalid (validate_structure m') (sign_bytes s m' (canonical_bytes m'))

  pub kms_sign : String → lib.PublicKey → Option lib.Bytes → WorkloadManifest → Signing
  unfolding unless_invalid kms_answer
  kms_sign id pub_key answer m =
      let m' = stamp m in
      unless_invalid (validate_structure m') (kms_answer id pub_key answer m' (canonical_bytes m'))

  -- The checks of Verify behind the signature.
  pub verify_envelope : WorkloadManifest → NodeSafetyPolicy → String → Int64 → Option String
  verify_envelope m pol expected_device_pk now =
      if not (str_eq expected_device_pk "") && not (str_eq m.device_pk expected_device_pk)
      then some "bound to a different device"
      else if lt64 (add64 now pol.max_clock_skew_seconds) m.created_at
      then some "created in the future"
      else if le64 m.expires_at now
      then some "expired"
      else if lt64 (add64 pol.max_lease_seconds pol.max_clock_skew_seconds)
          (sub64 m.expires_at m.created_at)
      then some "lease longer than the node ceiling"
      else if exceeds m.resource_limits pol
      then some "resource_limits exceed an immutable node ceiling"
      else none

  abbrev pub signature_verifies : lib.PublicKey → Option lib.Bytes → Option lib.Bytes → Bool
  signature_verifies pub_key none cb = false
  signature_verifies pub_key (some sig) none = false
  signature_verifies pub_key (some sig) (some cb) = lib.verify pub_key cb sig

  pub verify_signature :
      lib.PublicKey → SignedManifest → NodeSafetyPolicy → String → Int64 → Option String
  unfolding verify_envelope
  verify_signature pub_key sm pol expected_device_pk now =
      let sig = lib.decode sm.signature in
      if not (sized 64 sig)
      then some "bad signature encoding"
      else if not (is_decoded (canonical_bytes sm.manifest))
      then some "canonicalization failed"
      else if not (signature_verifies pub_key sig (canonical_bytes sm.manifest))
      then some "signature does not verify"
      else verify_envelope sm.manifest pol expected_device_pk now

  pub verify_trusted :
      Option lib.PublicKey → SignedManifest → NodeSafetyPolicy → String → Int64 → Option String
  unfolding first_error verify_signature
  verify_trusted none sm pol expected_device_pk now = some "unknown signer"
  verify_trusted (some pub_key) sm pol expected_device_pk now =
      first_error (validate_structure sm.manifest)
        (verify_signature pub_key sm pol expected_device_pk now)

  pub verify :
      SignedManifest → Dict lib.PublicKey → NodeSafetyPolicy → String → Int64 → Option String
  unfolding verify_trusted
  verify sm trusted pol expected_device_pk now =
      verify_trusted (Dict.get trusted sm.signer_id) sm pol expected_device_pk now
