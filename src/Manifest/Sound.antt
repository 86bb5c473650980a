-- ===== src/Manifest/Sound.antt =====
-- What is signed verifies, and what verifies was signed by a trusted key within the node's ceilings.
use shared_compute.Common.{
  passes, ℕ, ◌≡◌, refl, ap, ◌∙◌, String, true, false, not, ◌&&◌, Option, none, some, str_eq,
  Bool-cases, inl, inr, arith,
}
use shared_compute.Common.Int64.{Int64, add64, sub64, lt64, le64}
use shared_compute.Common.Dict
use shared_compute.Common.Dict.{Dict}
use shared_compute.Manifest.{
  WorkloadManifest, SignedManifest, NodeSafetyPolicy, Library, LocalSigner, signer, with_seed,
  new_signer, Signing, signed, exceeds, canonical_bytes, sized, is_decoded, validate_structure,
  stamp, sign_bytes, unless_invalid, sign, verify_envelope, signature_verifies, verify_signature,
  first_error, verify_trusted, verify,
}

-- The manifest is bound to the device, if one is expected, lives at the time, and asks for no more than
-- the policy allows.
pub record IsWithin (m : WorkloadManifest) (pol : NodeSafetyPolicy) (device_pk : String)
    (now : Int64) : Type 0 where
  pub device : (not (str_eq device_pk "") && not (str_eq m.device_pk device_pk)) ≡ false
  pub begun : lt64 (add64 now pol.max_clock_skew_seconds) m.created_at ≡ false
  pub alive : le64 m.expires_at now ≡ false
  pub lease :
      lt64
        (add64 pol.max_lease_seconds pol.max_clock_skew_seconds)
        (sub64 m.expires_at m.created_at)
      ≡ false
  pub limits : exceeds m.resource_limits pol ≡ false

pub record IsSigned (lib : Library) (sm : SignedManifest) (trusted : Dict lib.PublicKey)
    : Type 0 where
  pub pub_key : lib.PublicKey
  pub known : Dict.get trusted sm.signer_id ≡ some pub_key
  pub sig : lib.Bytes
  pub decoded : lib.decode sm.signature ≡ some sig
  pub full : lib.size sig ≡ 64
  pub cb : lib.Bytes
  pub canonical : canonical_bytes lib sm.manifest ≡ some cb
  pub verified : lib.verify pub_key cb sig ≡ true
  pub structure : validate_structure lib sm.manifest ≡ none

first_none : (a b : Option String) → first_error a b ≡ none → (a ≡ none) × (b ≡ none)
unfolding first_error
first_none none b h = (refl, h)
first_none (some r) b h = absurd (cc h)

module _ (lib : Library) where
  pub sized-some :
      (o : Option lib.Bytes) (n : ℕ)
      → not (sized lib n o) ≡ false
      → (raw : lib.Bytes) × (o ≡ some raw) × (lib.size raw ≡ n)
  sized-some none n h = absurd (cc h)
  sized-some (some raw) n h = (raw, refl, ground (arith, h))

  is_decoded-some :
      (o : Option lib.Bytes) → not (is_decoded lib o) ≡ false → (raw : lib.Bytes) × (o ≡ some raw)
  is_decoded-some none h = absurd (cc h)
  is_decoded-some (some raw) h = (raw, refl)

  verified_some :
      (pub_key : lib.PublicKey) (sig cb : lib.Bytes) (s c : Option lib.Bytes)
      → s ≡ some sig
      → c ≡ some cb
      → not (signature_verifies lib pub_key s c) ≡ false
      → lib.verify pub_key cb sig ≡ true
  verified_some pub_key sig cb s c d e v = ground (arith, d, e, v)

  verify_envelope-IsWithin :
      (m : WorkloadManifest) (pol : NodeSafetyPolicy) (device_pk : String) (now : Int64)
      → verify_envelope lib m pol device_pk now ≡ none
      → IsWithin m pol device_pk now
  unfolding verify_envelope
  verify_envelope-IsWithin m pol device_pk now h =
      let (device, h1) = passes _ _ _ h in
      let (begun, h2) = passes _ _ _ h1 in
      let (alive, h3) = passes _ _ _ h2 in
      let (lease, h4) = passes _ _ _ h3 in
      record {
        device = device;
        begun = begun;
        alive = alive;
        lease = lease;
        limits = (passes _ _ _ h4).0;
      }

  pub IsWithin-verify_envelope :
      (m : WorkloadManifest) (pol : NodeSafetyPolicy) (device_pk : String) (now : Int64)
      → IsWithin m pol device_pk now
      → verify_envelope lib m pol device_pk now ≡ none
  unfolding verify_envelope
  IsWithin-verify_envelope m pol device_pk now w =
      rw (w.device, w.begun, w.alive, w.lease, w.limits) refl

  verify_signature_sound :
      (pub_key : lib.PublicKey) (sm : SignedManifest) (trusted : Dict lib.PublicKey)
      (pol : NodeSafetyPolicy) (device_pk : String) (now : Int64)
      → Dict.get trusted sm.signer_id ≡ some pub_key
      → validate_structure lib sm.manifest ≡ none
      → verify_signature lib pub_key sm pol device_pk now ≡ none
      → IsSigned lib sm trusted × IsWithin sm.manifest pol device_pk now
  unfolding verify_signature
  verify_signature_sound pub_key sm trusted pol device_pk now known structure h =
      let (full, h1) = passes _ _ _ h in
      let (canonical, h2) = passes _ _ _ h1 in
      let (verified, h3) = passes _ _ _ h2 in
      let (sig, decoded, sized_of) = sized-some (lib.decode sm.signature) 64 full in
      let (cb, encoded) = is_decoded-some (canonical_bytes lib sm.manifest) canonical in
      (
        record {
          pub_key = pub_key;
          known = known;
          sig = sig;
          decoded = decoded;
          full = sized_of;
          cb = cb;
          canonical = encoded;
          verified = verified_some pub_key sig cb _ _ decoded encoded verified;
          structure = structure;
        },
        verify_envelope-IsWithin sm.manifest pol device_pk now h3,
      )

  pub sound_trusted :
      (found : Option lib.PublicKey) (sm : SignedManifest) (trusted : Dict lib.PublicKey)
      (pol : NodeSafetyPolicy) (device_pk : String) (now : Int64)
      → Dict.get trusted sm.signer_id ≡ found
      → verify_trusted lib found sm pol device_pk now ≡ none
      → IsSigned lib sm trusted × IsWithin sm.manifest pol device_pk now
  unfolding verify_trusted
  sound_trusted none sm trusted pol device_pk now known h = absurd (cc h)
  sound_trusted (some pub_key) sm trusted pol device_pk now known h =
      let (structure, rest) = first_none (validate_structure lib sm.manifest) _ h in
      verify_signature_sound pub_key sm trusted pol device_pk now known structure rest

  pub verify-IsWithin :
      (sm : SignedManifest) (trusted : Dict lib.PublicKey) (pol : NodeSafetyPolicy)
      (device_pk : String) (now : Int64)
      → verify lib sm trusted pol device_pk now ≡ none
      → IsSigned lib sm trusted × IsWithin sm.manifest pol device_pk now
  unfolding verify
  verify-IsWithin sm trusted pol device_pk now h =
      sound_trusted (Dict.get trusted sm.signer_id) sm trusted pol device_pk now refl h

  -- What verifies locally after it was encoded is verified, but for the envelope.
  verify_signature-encoded :
      (pub_key : lib.PublicKey) (sm : SignedManifest) (pol : NodeSafetyPolicy) (device_pk : String)
      (now : Int64) (sig cb : lib.Bytes)
      → sm.signature ≡ lib.encode sig
      → lib.size sig ≡ 64
      → canonical_bytes lib sm.manifest ≡ some cb
      → lib.verify pub_key cb sig ≡ true
      → verify_signature lib pub_key sm pol device_pk now
        ≡ verify_envelope lib sm.manifest pol device_pk now
  unfolding verify_signature
  verify_signature-encoded pub_key sm pol device_pk now sig cb e n c v =
      rw (e, lib.decode-encode, n, c, v) refl

  verify-encoded :
      (pub_key : lib.PublicKey) (sm : SignedManifest) (trusted : Dict lib.PublicKey)
      (pol : NodeSafetyPolicy) (device_pk : String) (now : Int64) (sig cb : lib.Bytes)
      → Dict.get trusted sm.signer_id ≡ some pub_key
      → validate_structure lib sm.manifest ≡ none
      → sm.signature ≡ lib.encode sig
      → lib.size sig ≡ 64
      → canonical_bytes lib sm.manifest ≡ some cb
      → lib.verify pub_key cb sig ≡ true
      → verify lib sm trusted pol device_pk now ≡ verify_envelope lib sm.manifest pol device_pk now
  unfolding verify verify_trusted first_error
  verify-encoded pub_key sm trusted pol device_pk now sig cb known ok e n c v =
      rw (known, ok) (verify_signature-encoded pub_key sm pol device_pk now sig cb e n c v)

  with_seed-keys :
      (id : String) (seed : Option lib.Bytes) (s : LocalSigner lib)
      → with_seed lib id seed ≡ signer s
      → s.pub_key ≡ lib.public_of s.key
  unfolding with_seed
  with_seed-keys id none s h = absurd (cc h)
  with_seed-keys id (some seed) s h = ground (arith, h)

  -- What a signer of NewSigner holds.
  pub new_signer-keys :
      (id seed : String) (s : LocalSigner lib)
      → new_signer lib id seed ≡ signer s
      → s.pub_key ≡ lib.public_of s.key
  unfolding new_signer
  new_signer-keys id seed s h = elim (Bool-cases (str_eq seed "")) [
    | inl e ↦ ground (arith, e, h)
    | inr e ↦ with_seed-keys id (lib.decode seed) s (ground (arith, e, h))
  ]

  signing_cases :
      (o : Option String) (r : Signing lib) (sm : SignedManifest)
      → unless_invalid lib o r ≡ signed sm
      → (o ≡ none) × (r ≡ signed sm)
  unfolding unless_invalid
  signing_cases none r sm h = (refl, h)
  signing_cases (some e) r sm h = absurd (cc h)

  sign_bytes-signed :
      (s : LocalSigner lib) (m : WorkloadManifest) (o : Option lib.Bytes) (sm : SignedManifest)
      → sign_bytes lib s m o ≡ signed sm
      → (cb : lib.Bytes) × (o ≡ some cb)
        × (sm.manifest ≡ m)
        × (sm.signer_id ≡ s.id)
        × (sm.signature ≡ lib.encode (lib.sign s.key cb))
  unfolding sign_bytes
  sign_bytes-signed s m none sm h = absurd (cc h)
  sign_bytes-signed s m (some cb) sm h =
      (cb, refl, ground (arith, h), ground (arith, h), ground (arith, h))

  -- What a signer that was made from a seed signs, a node that trusts its key judges by the device, the
  -- times and the ceilings alone: neither the structure nor the signature is refused.
  pub verify-sign :
      (id seed : String) (s : LocalSigner lib) (m : WorkloadManifest) (sm : SignedManifest)
      (trusted : Dict lib.PublicKey) (pol : NodeSafetyPolicy) (device_pk : String) (now : Int64)
      → new_signer lib id seed ≡ signer s
      → Dict.get trusted s.id ≡ some s.pub_key
      → sign lib s m ≡ signed sm
      → verify lib sm trusted pol device_pk now
        ≡ verify_envelope lib (stamp lib m) pol device_pk now
  unfolding sign
  verify-sign id seed s m sm trusted pol device_pk now made known h =
      let (ok, r) = signing_cases (validate_structure lib (stamp lib m)) _ sm h in
      let (cb, c, body, by, sig) = sign_bytes-signed s (stamp lib m) _ sm r in
      verify-encoded s.pub_key sm trusted pol device_pk now (lib.sign s.key cb) cb
        (ap (Dict.get trusted) by ∙ known) (ap (validate_structure lib) body ∙ ok) sig
        (lib.size-sign s.key cb) (ap (canonical_bytes lib) body ∙ c)
        (ap (λ k. lib.verify k cb (lib.sign s.key cb)) (new_signer-keys id seed s made)
          ∙ lib.verify-sign s.key cb)
      ∙ ap (λ w. verify_envelope lib w pol device_pk now) body
