-- ===== src/Hub/Tier.antt =====
-- The check of the key attestation of coordinator/internal/attest/android.go in the registration,
-- where it decides the tier of a provider.
use shared_compute.Common.{
  ℕ, ◌≡◌, refl, sym, subst, String, Bool, true, false, Option, none, some, str_eq,
}
use mathlib.Core.Option.{some-injective}
use shared_compute.Hub.{
  Attestation, Register, Wire, Coordinator, Admission, refused, admitted, registration,
}
use shared_compute.Hub.Registration.{IsSound, registration-IsSound}
use shared_compute.Registry.{Provider}
use shared_compute.Attest.{
  Library, AndroidKeyResult, Verdict, rejected, attested, verify_android_key,
}
use shared_compute.Attest.Sound.{IsAttested, verify_android_key_sound}

abbrev pub is_attested : Verdict → Bool
is_attested (rejected res e) = false
is_attested (attested res) = true

is_attested-attested :
    (v : Verdict) → is_attested v ≡ true → (res : AndroidKeyResult) × (v ≡ attested res)
is_attested-attested (rejected res e) h = absurd (cc h)
is_attested-attested (attested res) h = (res, refl)

-- The first frame is a registration of `p`'s key with evidence for it.
pub record IsEvidenced (lib : Library) (at : ℕ) (w : Wire) (first : Option String) (p : Provider)
    : Type 0 where
  pub raw : String
  pub received : first ≡ some raw
  pub reg : Register
  pub read : w.register_of raw ≡ some reg
  pub decoded : w.decode reg.static_pk ≡ some p.static_pk
  pub ev : Attestation
  pub given : reg.attestation ≡ some ev
  pub kind : str_eq ev.kind "android_key" ≡ true
  pub proved : IsAttested lib at ev.evidence p.static_pk

abbrev pub provider_of : Admission → Option Provider
provider_of (refused c) = none
provider_of (admitted p c) = some p

module _ (lib : Library) where
  -- A hub that checks key attestations.
  abbrev pub attesting : ℕ → Wire → Wire
  attesting at w = record w {
    android_key = λ raw key. is_attested (verify_android_key lib at raw key);
  }

  admission-IsAttested :
      (at : ℕ) (w : Wire) (id : String) (first : Option String) (c : Coordinator) (o : Admission)
      (p : Provider)
      → IsSound (attesting at w) id first c o
      → provider_of o ≡ some p
      → str_eq p.trust_tier "community" ≡ false
      → IsEvidenced lib at w first p
  admission-IsAttested at w id first c (refused d) p s h tier = absurd (cc h)
  admission-IsAttested at w id first c (admitted q d) p (raw, e, shown, own, added, kept) h tier =
      let same : q ≡ p = some-injective q p h in
      let proof =
        shown.attested (subst (λ r. str_eq r.trust_tier "community" ≡ false) (sym same) tier) in
      let (res, v) =
        is_attested-attested (verify_android_key lib at proof.ev.evidence q.static_pk)
          proof.verified in
      record {
        raw = raw;
        received = e;
        reg = shown.reg;
        read = shown.read;
        decoded = subst (λ r. w.decode shown.reg.static_pk ≡ some r.static_pk) same shown.decoded;
        ev = proof.ev;
        given = proof.given;
        kind = proof.kind;
        proved =
            subst (λ r. IsAttested lib at proof.ev.evidence r.static_pk) same
              (verify_android_key_sound lib at proof.ev.evidence q.static_pk res v);
      }

  -- A provider is admitted at another tier than community only if the evidence of its first frame proves,
  -- for the very key that it registered, what verifyAndroidKey asks for: a linked and rooted certificate
  -- chain, a fresh signature over that key, and a hardware key on a locked device in the verified boot
  -- state.
  pub registration-IsAttested :
      (at : ℕ) (w : Wire) (id : String) (now : ℕ) (first : Option String) (c : Coordinator)
      (p : Provider)
      → provider_of (registration (attesting at w) id now first c) ≡ some p
      → str_eq p.trust_tier "community" ≡ false
      → IsEvidenced lib at w first p
  registration-IsAttested at w id now first c p =
      admission-IsAttested at w id first c (registration (attesting at w) id now first c) p
        (registration-IsSound (attesting at w) id now first c)
