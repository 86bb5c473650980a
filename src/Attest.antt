-- ===== src/Attest.antt =====
-- coordinator/internal/attest/android.go: the check of an Android key attestation. X.509, ECDSA, SHA-256,
-- base64, JSON and the readers of package cryptobyte are parameters; a reader gives what it read, if it
-- could, and what is left, since it can advance even where it fails. `unknown` is fmt.Sprintf of a number. Times are nanoseconds and an argument.
pub mod Data
pub mod Der
pub mod Binding
pub mod Sound
pub mod Tail
pub mod Tests
pub use Data.*
use shared_compute.Common.{
  ℕ, ◌+◌, ◌*◌, ◌/◌, ◌%◌, ◌^◌, String, Bool, true, false, not, ◌&&◌, ◌||◌, Option, none, some, List,
  [], ◌∷◌, ◌++◌, length, ltb, ◌==◌, str_eq, if◌then◌else◌,
}
use shared_compute.Common.Int64.{Int64, is_neg, lt64}
use shared_compute.Attest.Der.{find_context_tagged}

-- A time before 1970 is stale at any clock reading past the window.
pub is_stale : ℕ → Int64 → Bool
is_stale now issued_at =
    is_neg issued_at
    || ltb (now + freshness_window) (issued_at * 1_000_000_000)
    || ltb (issued_at * 1_000_000_000 + freshness_window) now

-- The bytes of an enumeration as a number.
pub enum_value : List ℕ → Int64 → Int64
enum_value [] n = n
enum_value (c ∷ cs) n = enum_value cs ((n * 256 + c) % 2 ^ 64)

abbrev pub reached : Option (Option (List ℕ)) → Option (List ℕ)
reached none = none
reached (some found) = found

abbrev pub or_else : {A : Type 0} → Option A → Option A → Option A
or_else none b = b
or_else (some a) b = some a

pub find_extension : List (String × List ℕ) → Option (List ℕ)
find_extension [] = none
find_extension ((id, value) ∷ es) =
    if str_eq id key_attestation_oid then some value else find_extension es

module _ (lib : Library) where
  pub parse_chain : List String → Result (List lib.Cert)
  parse_chain [] = ok []
  parse_chain (b ∷ bs) = do
    der ← require "base64" (lib.decode b)
    c ← require "parse" (lib.parse_certificate der)
    chain ← parse_chain bs
    ok (c ∷ chain)

  pub outside : ℕ → lib.Cert → Bool
  outside now c = ltb now (lib.not_before c) || ltb (lib.not_after c) now

  -- Each certificate is signed by the next; `leaf` says that the first is the leaf.
  pub check_links : ℕ → Bool → List lib.Cert → Option String
  check_links now leaf [] = none
  check_links now leaf (c ∷ []) = none
  check_links now leaf (c ∷ p ∷ rest) =
      let later = check_links now false (p ∷ rest) in
      if not (lib.signed_from c p)
      then some "not signed by the next"
      else if not leaf && outside now c
      then some "intermediate outside validity window"
      else later

  pub check_roots : ℕ → lib.Cert → List lib.Cert → Option String
  check_roots now tail [] = some "chain does not terminate at a pinned Google root"
  check_roots now tail (root ∷ roots) =
      let later = check_roots now tail roots in
      if lib.same tail root
      then none
      else if lib.signed_from tail root
      then (if outside now root then some "pinned root outside validity window" else none)
      else later

  abbrev pub last : lib.Cert → List lib.Cert → lib.Cert
  last c [] = c
  last c (p ∷ rest) = last p rest

  abbrev pub unless : Option String → Result (Unit {0})
  unless none = ok tt
  unless (some e) = err e

  pub verify_chain_at : ℕ → lib.Cert → List lib.Cert → Result (Unit {0})
  verify_chain_at now leaf rest = do
    _ ← unless (check_links now true (leaf ∷ rest))
    unless (check_roots now (last leaf rest) lib.google_roots)

  abbrev pub nonce_fits : Option (List ℕ) → Option (List ℕ)
  nonce_fits none = none
  nonce_fits (some nonce) = if ltb (length nonce) 16 then none else some nonce

  pub verify_binding : ℕ → lib.Cert → Evidence → List ℕ → Result (Unit {0})
  verify_binding now leaf ev static_pk = do
    _ ← unless (if is_stale now ev.issued_at then some "binding timestamp stale" else none)
    nonce ← require "bad nonce" (nonce_fits (lib.decode ev.nonce_b64))
    sig ← require "bad binding sig" (lib.decode ev.binding_sig_b64)
    key ← require "leaf key is not ECDSA" (lib.ecdsa_key leaf)
    unless (
        if not (lib.verify_asn1 key (lib.sum256 (bind_message static_pk nonce ev.issued_at)) sig)
        then some "binding signature does not verify"
        else none)

  pub read_enum : List ℕ → Option Int64 × List ℕ
  read_enum s =
      let (v, rest) = lib.read_asn1 enumerated s in
      (elim v [ none ↦ none | some bytes ↦ some (enum_value bytes 0) ], rest)

  abbrev pub security_level_name : Int64 → String
  security_level_name n =
      if n == 0
      then "software"
      else if n == 1
      then "tee"
      else if n == 2
      then "strongbox"
      else lib.unknown n

  abbrev pub verified_boot_name : Int64 → String
  verified_boot_name n =
      if n == 0
      then "verified"
      else if n == 1
      then "self_signed"
      else if n == 2
      then "unverified"
      else if n == 3
      then "failed"
      else lib.unknown n

  abbrev pub root_of_trust : List ℕ → List ℕ → Option (List ℕ)
  root_of_trust sw_enforced tee_enforced =
      or_else (reached (find_context_tagged tee_enforced root_of_trust_tag))
        (reached (find_context_tagged sw_enforced root_of_trust_tag))

  pub parse_root_of_trust : Int64 → List ℕ → Result KeyDescription
  unfolding read_enum
  parse_root_of_trust security_level rot = do
    (seq, _) ← expect "RootOfTrust is not a SEQUENCE" (lib.read_asn1 sequence rot)
    (vb_key, r1) ← expect "RootOfTrust missing verifiedBootKey" (lib.read_asn1 octet_string seq)
    (locked, r2) ← expect "RootOfTrust missing deviceLocked" (lib.read_boolean r1)
    (state, r3) ← expect "RootOfTrust missing verifiedBootState" (read_enum r2)
    ok (record {
      security_level = security_level;
      verified_boot_state = state;
      device_locked = locked;
    })

  -- The results of the reads between the security level and the lists are not looked at.
  pub parse_key_description : lib.Cert → Result KeyDescription
  unfolding read_enum parse_root_of_trust
  parse_key_description leaf = do
    extn ← require "leaf has no key-attestation extension" (find_extension (lib.extensions leaf))
    (kd, _) ← expect "KeyDescription is not a SEQUENCE" (lib.read_asn1 sequence extn)
    (version, r1) ← expect "bad attestationVersion" (lib.read_integer kd)
    (level, r2) ← expect "bad attestationSecurityLevel" (read_enum r1)
    let r3 = (lib.read_integer r2).1
    let r4 = (read_enum r3).1
    let r5 = (lib.read_asn1 octet_string r4).1
    let r6 = (lib.read_asn1 octet_string r5).1
    (sw_enforced, r7) ← expect "bad AuthorizationList" (lib.read_asn1 sequence r6)
    (tee_enforced, r8) ← expect "bad AuthorizationList" (lib.read_asn1 sequence r7)
    rot ← require "no RootOfTrust" (root_of_trust sw_enforced tee_enforced)
    parse_root_of_trust level rot

  pub judge : KeyDescription → Verdict
  judge kd =
      let res : AndroidKeyResult = record {
        security_level = security_level_name kd.security_level;
        verified_boot_state = verified_boot_name kd.verified_boot_state;
        device_locked = kd.device_locked;
      } in
      if lt64 kd.security_level 1
      then rejected (some res) "security level is not hardware-backed"
      else if not (kd.verified_boot_state == 0)
      then rejected (some res) "verified boot state"
      else if not kd.device_locked
      then rejected (some res) "bootloader unlocked"
      else attested res

  pub judged : Result KeyDescription → Verdict
  unfolding judge
  judged (err e) = rejected none e
  judged (ok kd) = judge kd

  pub verify_chain_key : ℕ → Evidence → List ℕ → List lib.Cert → Result KeyDescription
  unfolding verify_chain_at verify_binding parse_key_description
  verify_chain_key now ev static_pk [] = err "chain too short"
  verify_chain_key now ev static_pk (leaf ∷ rest) = do
    _ ← verify_chain_at now leaf rest
    _ ← verify_binding now leaf ev static_pk
    parse_key_description leaf

  pub verify_evidence : ℕ → Evidence → List ℕ → Result KeyDescription
  unfolding parse_chain verify_chain_key
  verify_evidence now ev static_pk =
      if ltb (length ev.cert_chain_der_b64) 2
      then err "chain too short"
      else parse_chain ev.cert_chain_der_b64 >>= verify_chain_key now ev static_pk

  pub verify_android_key : ℕ → String → List ℕ → Verdict
  unfolding judged verify_evidence
  verify_android_key now raw static_pk =
      judged (require "evidence" (lib.evidence_of raw) >>= λ ev. verify_evidence now ev static_pk)
