-- ===== src/Manifest/Job.antt =====
-- coordinator/internal/relay/relay.go: signJobManifest, without the JSON encoding of what it returns.
-- The time and the nonce are arguments.
use shared_compute.Common.{
  ℕ, ◌+◌, ◌^◌, ltb, leb, ◌≤◌, ◌<◌, ◌≡◌, refl, ◌∙◌, String, Bool, true, false, not, ◌&&◌, none, some,
  str_eq, eq_refl, if◌then◌else◌, arith,
}
use shared_compute.Common.Int64.{Int64, IsWord, add64, sub64, lt64, le64}
use shared_compute.Common.Dict
use shared_compute.Common.Dict.{Dict}
use shared_compute.Manifest.{
  WorkloadManifest, SignedManifest, Library, LocalSigner, Signing, signed, default_node_policy,
  default_limits, lease_seconds, sha256_hex, sign, stamp, validate_structure, is_b64_bytes,
  is_sha256_hex, canonical_bytes, verify, verify_envelope, new_signer, signer, sign_bytes,
  unless_invalid,
}
use shared_compute.Manifest.Limits.{default_limits-within, lease_seconds-bounds}
use shared_compute.Manifest.Sound.{verify-sign}

lt64-add64 : (a b k : ℕ) → a < 2 ^ 62 → b < 2 ^ 62 → k ≤ 240 → lt64 (add64 a k) b ≡ ltb (a + k) b
lt64-add64 a b k ha hb hk = ground (arith, ha, hb, hk)

le64-add64 : (a b k : ℕ) → a < 2 ^ 62 → b < 2 ^ 62 → k ≤ 240 → le64 (add64 a k) b ≡ leb (a + k) b
le64-add64 a b k ha hb hk = ground (arith, ha, hb, hk)

lease_fits : (a k : ℕ) → a < 2 ^ 62 → k ≤ 240 → lt64 (add64 300 30) (sub64 (add64 a k) a) ≡ false
lease_fits a k ha hk = ground (arith, ha, hk)

own_device : (b : Bool) → (not b && not true) ≡ false
own_device true = refl
own_device false = refl

module _ (lib : Library) where
  abbrev pub job_manifest :
      String → lib.Bytes → String → Int64 → String → Int64 → String → Int64 → WorkloadManifest
  job_manifest job_id static_pk model max_tokens pt_raw deadline_ms nonce now = record {
    manifest_version = 0;
    job_id = job_id;
    lease_id = job_id;
    workload_id = job_id;
    customer_id = "";
    device_pk = lib.encode static_pk;
    runtime_id = "llama.cpp";
    runtime_version = "v0";
    runtime_hash = sha256_hex lib "llama.cpp@v0";
    model_id = model;
    model_hash = sha256_hex lib model;
    operation = "";
    input_hash = sha256_hex lib pt_raw;
    resource_limits = default_limits max_tokens;
    network_policy = "";
    created_at = now;
    expires_at = add64 now (lease_seconds deadline_ms);
    nonce = nonce;
  }

  pub sign_job_manifest :
      LocalSigner lib
      → String
      → lib.Bytes
      → String
      → Int64
      → String
      → Int64
      → String
      → Int64
      → Signing lib
  sign_job_manifest s job_id static_pk model max_tokens pt_raw deadline_ms nonce now =
      sign lib s (job_manifest job_id static_pk model max_tokens pt_raw deadline_ms nonce now)

  encoded-is_b64_bytes :
      (b : lib.Bytes) (n : ℕ) → lib.size b ≡ n → is_b64_bytes lib (lib.encode b) n ≡ true
  encoded-is_b64_bytes b n h = rw (lib.decode-encode, h) (ground arith)

  summed-is_sha256_hex : (text : String) → is_sha256_hex lib (sha256_hex lib text) ≡ true
  unfolding sha256_hex
  summed-is_sha256_hex text =
      let raw = lib.bytes_of text in
      rw (lib.len-hex_encode raw, lib.hex_decode-hex_encode raw, lib.hex_encode_lower raw) refl

  job_manifest-valid :
      (job_id : String) (static_pk : lib.Bytes) (model : String) (max_tokens : Int64)
      (pt_raw : String) (deadline_ms : Int64) (nonce : lib.Bytes) (now : Int64)
      → str_eq job_id "" ≡ false
      → lib.size static_pk ≡ 32
      → str_eq model "" ≡ false
      → IsWord max_tokens
      → lib.size nonce ≡ 24
      → validate_structure lib (
          stamp lib (
            job_manifest job_id static_pk model max_tokens pt_raw deadline_ms
              (lib.encode nonce)
              now))
        ≡ none
  unfolding validate_structure
  job_manifest-valid job_id static_pk model max_tokens pt_raw deadline_ms nonce now j k m t n =
      let (within, positive) = default_limits-within max_tokens t in
      rw
        (
          j,
          m,
          encoded-is_b64_bytes static_pk 32 k,
          encoded-is_b64_bytes nonce 24 n,
          summed-is_sha256_hex "llama.cpp@v0",
          summed-is_sha256_hex model,
          summed-is_sha256_hex pt_raw,
          positive,
        )
        (unfold default_limits in refl)

  envelope-job_manifest :
      (m : WorkloadManifest) (max_tokens lease now later : Int64)
      → m.created_at ≡ now
      → m.expires_at ≡ add64 now lease
      → m.resource_limits ≡ default_limits max_tokens
      → IsWord max_tokens
      → 30 ≤ lease
      → lease ≤ 240
      → now < 2 ^ 62
      → later < 2 ^ 62
      → verify_envelope lib m default_node_policy m.device_pk later ≡ (
          if ltb (later + 30) now
          then some "created in the future"
          else if leb (now + lease) later
          then some "expired"
          else none)
  unfolding verify_envelope
  envelope-job_manifest m max_tokens lease now later c x l t lo hi n1 n2 =
      let (within, positive) = default_limits-within max_tokens t in
      rw
        (
          c,
          x,
          l,
          within,
          eq_refl m.device_pk,
          own_device (str_eq m.device_pk ""),
          lt64-add64 later now 30 n2 n1 (omega arith),
          le64-add64 now later lease n1 n2 hi,
          lease_fits now lease n1 hi,
        )
        refl

  -- For a job with an id and a model, a device key of 32 bytes, a nonce of 24 and a manifest that the
  -- encoder takes, a manifest is signed that the device accepts under the default policy from thirty
  -- seconds before the signing until the end of the lease, and refuses outside of that time, whatever the
  -- token limit and the deadline are, given clock readings below 2 ^ 62.
  pub verify-sign_job_manifest :
      (id seed : String) (s : LocalSigner lib) (trusted : Dict lib.PublicKey) (job_id : String)
      (static_pk : lib.Bytes) (model : String) (max_tokens : Int64) (pt_raw : String)
      (deadline_ms : Int64) (nonce : lib.Bytes) (now later : Int64) (cb : lib.Bytes)
      → new_signer lib id seed ≡ signer s
      → Dict.get trusted s.id ≡ some s.pub_key
      → str_eq job_id "" ≡ false
      → str_eq model "" ≡ false
      → lib.size static_pk ≡ 32
      → lib.size nonce ≡ 24
      → IsWord max_tokens
      → IsWord deadline_ms
      → now < 2 ^ 62
      → later < 2 ^ 62
      → canonical_bytes lib (
          stamp lib (
            job_manifest job_id static_pk model max_tokens pt_raw deadline_ms
              (lib.encode nonce)
              now))
        ≡ some cb
      → (sm : SignedManifest) × (sign_job_manifest s job_id static_pk model max_tokens pt_raw
            deadline_ms
            (lib.encode nonce)
            now
          ≡ signed sm)
        × (verify lib sm trusted default_node_policy (lib.encode static_pk) later ≡ (
            if ltb (later + 30) now
            then some "created in the future"
            else if leb (now + lease_seconds deadline_ms) later
            then some "expired"
            else none))
  unfolding sign_job_manifest sign
  verify-sign_job_manifest id seed s trusted job_id static_pk model max_tokens pt_raw deadline_ms
        nonce now later cb made known j m k n t d n1 n2 c =
      let w = stamp lib (
        job_manifest job_id static_pk model max_tokens pt_raw deadline_ms (lib.encode nonce) now) in
      let sm : SignedManifest = record {
        manifest = w;
        signer_id = s.id;
        signature = lib.encode (lib.sign s.key cb);
      } in
      let ok =
        job_manifest-valid job_id static_pk model max_tokens pt_raw deadline_ms nonce now j k m t
          n in
      let made_of : sign_job_manifest s job_id static_pk model max_tokens pt_raw deadline_ms
            (lib.encode nonce) now
          ≡ signed sm =
        rw (ok, c) (unfold unless_invalid sign_bytes in refl) in
      let (lo, hi) = lease_seconds-bounds deadline_ms d in
      (
        sm,
        made_of,
        verify-sign lib id seed s
              (job_manifest job_id static_pk model max_tokens pt_raw deadline_ms (lib.encode nonce)
                now)
              sm trusted default_node_policy (lib.encode static_pk) later made known made_of
            ∙ envelope-job_manifest w max_tokens (lease_seconds deadline_ms) now later refl refl
                refl t lo hi n1 n2,
      )
