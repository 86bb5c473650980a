-- ===== src/Attest/Sound.antt =====
-- What an attested device has proved.
use shared_compute.Common.{
  ℕ, ◌≤◌, ◌≡◌, ◌⊎◌, refl, ap, String, Bool, true, false, not, Option, none, some, List, [], ◌∷◌,
  ◌++◌, length, ltb, if◌then◌else◌, passes, Bool-cases, inl, inr, arith,
}
use shared_compute.Common.Int64.{lt64}
use shared_compute.Attest.{
  Result, ok, err, ◌>>=◌, require, Evidence, Library, AndroidKeyResult, KeyDescription, attested,
  bind_message, is_stale, parse_chain, outside, check_links, check_roots, last, unless,
  verify_chain_at, nonce_fits, verify_binding, parse_key_description, judge, judged,
  verify_chain_key, verify_evidence, verify_android_key,
}

>>=-ok :
    {A B : Type 0} (m : Result A) (f : A → Result B) (b : B)
    → (m >>= f) ≡ ok b
    → (a : A) × (m ≡ ok a) × (f a ≡ ok b)
>>=-ok (ok a) f b h = (a, refl, h)
>>=-ok (err e) f b h = absurd (cc h)

unnot : (b : Bool) → not b ≡ false → b ≡ true
unnot true h = refl
unnot false h = absurd (cc h)

require-ok : {A : Type 0} (e : String) (o : Option A) (a : A) → require e o ≡ ok a → o ≡ some a
require-ok e none a h = absurd (cc h)
require-ok e (some x) a h = ground (arith, h)

-- A chain whose certificates are each signed by the next.
abbrev pub IsLinked : (lib : Library) → List lib.Cert → Type 0
IsLinked lib [] = Unit {0}
IsLinked lib (c ∷ []) = Unit {0}
IsLinked lib (c ∷ p ∷ rest) = (lib.signed_from c p ≡ true) × IsLinked lib (p ∷ rest)

-- The certificate is a root of the list, or one in its window signed it.
abbrev pub IsRooted : (lib : Library) → ℕ → lib.Cert → List lib.Cert → Type 0
IsRooted lib now tail roots =
    (before : List lib.Cert) × (root : lib.Cert) × (after : List lib.Cert) × (roots
      ≡ before ++ (root ∷ after))
    × ((lib.same tail root ≡ true)
        ⊎ ((lib.signed_from tail root ≡ true) × (outside lib now root ≡ false)))

pub record IsAttested (lib : Library) (now : ℕ) (raw : String) (static_pk : List ℕ) : Type 0 where
  pub ev : Evidence
  pub read : lib.evidence_of raw ≡ some ev
  pub leaf : lib.Cert
  pub rest : List lib.Cert
  pub parsed : parse_chain lib ev.cert_chain_der_b64 ≡ ok (leaf ∷ rest)
  pub linked : IsLinked lib (leaf ∷ rest)
  pub rooted : IsRooted lib now (last lib leaf rest) lib.google_roots
  pub fresh : is_stale now ev.issued_at ≡ false
  pub nonce : List ℕ
  pub nonce_of : lib.decode ev.nonce_b64 ≡ some nonce
  pub nonce_size : 16 ≤ length nonce
  pub sig : List ℕ
  pub sig_of : lib.decode ev.binding_sig_b64 ≡ some sig
  pub key : lib.PublicKey
  pub key_of : lib.ecdsa_key leaf ≡ some key
  pub bound :
      lib.verify_asn1 key (lib.sum256 (bind_message static_pk nonce ev.issued_at)) sig ≡ true
  pub kd : KeyDescription
  pub described : parse_key_description lib leaf ≡ ok kd
  pub hardware : lt64 kd.security_level 1 ≡ false
  pub boot : kd.verified_boot_state ≡ 0
  pub locked : kd.device_locked ≡ true

module _ (lib : Library) where
  unless-ok : (o : Option String) (u : Unit {0}) → unless lib o ≡ ok u → o ≡ none
  unless-ok none u h = refl
  unless-ok (some e) u h = absurd (cc h)

  check_links-IsLinked :
      (now : ℕ) (leaf : Bool) (chain : List lib.Cert)
      → check_links lib now leaf chain ≡ none
      → IsLinked lib chain
  unfolding check_links
  check_links-IsLinked now leaf [] h = tt
  check_links-IsLinked now leaf (c ∷ []) h = tt
  check_links-IsLinked now leaf (c ∷ p ∷ rest) h =
      let (s, h1) = passes (not (lib.signed_from c p)) _ _ h in
      let (i, h2) = passes _ _ _ h1 in (unnot _ s, check_links-IsLinked now false (p ∷ rest) h2)

  check_roots-IsRooted :
      (now : ℕ) (tail : lib.Cert) (roots : List lib.Cert)
      → check_roots lib now tail roots ≡ none
      → IsRooted lib now tail roots
  unfolding check_roots
  check_roots-IsRooted now tail [] h = absurd (cc h)
  check_roots-IsRooted now tail (root ∷ roots) h = elim (Bool-cases (lib.same tail root)) [
    | inl e ↦ ([], root, roots, refl, inl e)
    | inr e ↦ elim (Bool-cases (lib.signed_from tail root)) [
      | inl f ↦ ([], root, roots, refl, inr (f, ground (arith, h, e, f)))
      | inr f ↦
          let (before, r, after, at, s) =
            check_roots-IsRooted now tail roots (ground (arith, h, e, f)) in
          (root ∷ before, r, after, ap (λ l. root ∷ l) at, s)
    ]
  ]

  nonce_fits-some :
      (o : Option (List ℕ)) (nonce : List ℕ)
      → nonce_fits lib o ≡ some nonce
      → (o ≡ some nonce) × (16 ≤ length nonce)
  nonce_fits-some none nonce h = absurd (cc h)
  nonce_fits-some (some raw) nonce h = elim (Bool-cases (ltb (length raw) 16)) [
    | inl e ↦ absurd (ground (arith, h, e))
    | inr e ↦
        let same : some raw ≡ some nonce = ground (arith, h, e) in (same, ground (arith, same, e))
  ]

  judge-attested :
      (kd : KeyDescription) (res : AndroidKeyResult)
      → judge lib kd ≡ attested res
      → (lt64 kd.security_level 1 ≡ false)
        × (kd.verified_boot_state ≡ 0)
        × (kd.device_locked ≡ true)
  unfolding judge
  judge-attested kd res h = (ground (arith, h), ground (arith, h), ground (arith, h))

  judged-attested :
      (r : Result KeyDescription) (res : AndroidKeyResult)
      → judged lib r ≡ attested res
      → (kd : KeyDescription) × (r ≡ ok kd) × (judge lib kd ≡ attested res)
  unfolding judged
  judged-attested (err e) res h = absurd (cc h)
  judged-attested (ok kd) res h = (kd, refl, h)

  evidence_sound :
      (now : ℕ) (raw : String) (static_pk : List ℕ) (ev : Evidence) (kd : KeyDescription)
      (chain : List lib.Cert)
      → lib.evidence_of raw ≡ some ev
      → parse_chain lib ev.cert_chain_der_b64 ≡ ok chain
      → verify_chain_key lib now ev static_pk chain ≡ ok kd
      → (lt64 kd.security_level 1 ≡ false)
        × (kd.verified_boot_state ≡ 0)
        × (kd.device_locked ≡ true)
      → IsAttested lib now raw static_pk
  unfolding verify_chain_key verify_chain_at verify_binding
  evidence_sound now raw static_pk ev kd [] e p h j = absurd (cc h)
  evidence_sound now raw static_pk ev kd (leaf ∷ rest) e p h j =
      let (u, chained, h1) = >>=-ok (verify_chain_at lib now leaf rest) _ kd h in
      let (v, bound, described) = >>=-ok (verify_binding lib now leaf ev static_pk) _ kd h1 in
      let (x, links, roots) =
        >>=-ok (unless lib (check_links lib now true (leaf ∷ rest))) _ u chained in
      let (y, fresh, b1) =
        >>=-ok
          (unless lib (if is_stale now ev.issued_at then some "binding timestamp stale" else none))
          _ v bound in
      let (nonce, n, b2) =
        >>=-ok (require "bad nonce" (nonce_fits lib (lib.decode ev.nonce_b64))) _ v b1 in
      let (sig, s, b3) =
        >>=-ok (require "bad binding sig" (lib.decode ev.binding_sig_b64)) _ v b2 in
      let (key, k, b4) = >>=-ok (require "leaf key is not ECDSA" (lib.ecdsa_key leaf)) _ v b3 in
      let (nonce_of, nonce_size) =
        nonce_fits-some (lib.decode ev.nonce_b64) nonce (require-ok _ _ nonce n) in
      record {
        ev = ev;
        read = e;
        leaf = leaf;
        rest = rest;
        parsed = p;
        linked = check_links-IsLinked now true (leaf ∷ rest) (unless-ok _ x links);
        rooted =
            check_roots-IsRooted now (last lib leaf rest) lib.google_roots (unless-ok _ u roots);
        fresh = (passes (is_stale now ev.issued_at) _ none (unless-ok _ y fresh)).0;
        nonce = nonce;
        nonce_of = nonce_of;
        nonce_size = nonce_size;
        sig = sig;
        sig_of = require-ok _ _ sig s;
        key = key;
        key_of = require-ok _ _ key k;
        bound = unnot _ (passes _ _ none (unless-ok _ v b4)).0;
        kd = kd;
        described = described;
        hardware = j.0;
        boot = j.1;
        locked = j.2;
      }

  -- A device is attested for a key only if its evidence has a chain whose certificates are each signed
  -- by the next and whose last is a pinned root or was signed by one in its window, a time within five
  -- minutes, a nonce of sixteen bytes or more and a signature under the leaf's key over the key, that
  -- nonce and that time, and if the leaf describes a key in hardware on a locked device in the verified
  -- boot state.
  pub verify_android_key_sound :
      (now : ℕ) (raw : String) (static_pk : List ℕ) (res : AndroidKeyResult)
      → verify_android_key lib now raw static_pk ≡ attested res
      → IsAttested lib now raw static_pk
  unfolding verify_android_key verify_evidence
  verify_android_key_sound now raw static_pk res h =
      let (kd, r, j) = judged-attested _ res h in
      let (ev, e, h1) = >>=-ok (require "evidence" (lib.evidence_of raw)) _ kd r in
      elim (Bool-cases (ltb (length ev.cert_chain_der_b64) 2)) [
        | inl f ↦ absurd (ground (arith, h1, f))
        | inr f ↦
            let (chain, p, h2) =
              >>=-ok (parse_chain lib ev.cert_chain_der_b64) (verify_chain_key lib now ev static_pk)
                kd (ground (arith, h1, f)) in
            evidence_sound now raw static_pk ev kd chain (require-ok _ _ ev e) p h2
              (judge-attested kd res j)
      ]
