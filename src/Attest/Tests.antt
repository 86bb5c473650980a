-- ===== src/Attest/Tests.antt =====
-- A device that is attested by a chain of two certificates, and the theorems at it.
use shared_compute.Common.{
  ℕ, suc, ◌≡◌, refl, Bool, true, Option, none, some, List, [], ◌∷◌, length, take, drop, replicate,
  str_eq, ◌==◌, if◌then◌else◌, arith,
}
use shared_compute.Common.Int64.{Int64}
use shared_compute.Attest
use shared_compute.Attest.{
  check_links, check_roots, Evidence, Library, AndroidKeyResult, Verdict, attested, rejected,
  Result, ok, bind_message, key_attestation_oid, verify_chain_at, outside, verify_android_key,
}
use shared_compute.Attest.Der.{
  high_tag, tag_number, big_endian, content_length, with_length, with_tag, element, on_element,
  find_loop, find_context_tagged,
}
use shared_compute.Attest.Binding.{bind_message_inj}
use shared_compute.Attest.Tail.{AgreesBut, redated, verify_chain-redated}

abbrev pub evidence : Evidence
evidence = record {
  cert_chain_der_b64 = "leaf" ∷ "ca" ∷ [];
  binding_sig_b64 = "sig";
  nonce_b64 = "nonce";
  issued_at = 0;
}

-- One byte of a tag, one of a length, and the content.
abbrev read_simple : ℕ → List ℕ → Option (List ℕ) × List ℕ
read_simple tag [] = (none, [])
read_simple tag (t ∷ []) = (none, [])
read_simple tag (t ∷ l ∷ b) = (if t == tag then some (take l b) else none, drop l b)

abbrev read_flag : List ℕ → Option Bool × List ℕ
read_flag [] = (none, [])
read_flag (t ∷ []) = (none, [])
read_flag (t ∷ l ∷ []) = (none, [])
read_flag (t ∷ l ∷ v ∷ b) = (some (v == 255), b)

abbrev read_number : List ℕ → Option Int64 × List ℕ
read_number [] = (none, [])
read_number (t ∷ []) = (none, [])
read_number (t ∷ l ∷ b) = (some l, drop l b)

-- A key in the trusted environment of a locked, verified device.
abbrev description : List ℕ
description =
    48 ∷ 34 ∷ 2 ∷ 1 ∷ 1 ∷ 10 ∷ 1 ∷ 1 ∷ 2 ∷ 1 ∷ 1 ∷ 10 ∷ 1 ∷ 1 ∷ 4 ∷ 0 ∷ 4 ∷ 0 ∷ 48 ∷ 0 ∷ 48 ∷ 14
    ∷ 191 ∷ 133 ∷ 64 ∷ 10 ∷ 48 ∷ 8 ∷ 4 ∷ 0 ∷ 1 ∷ 1 ∷ 255 ∷ 10 ∷ 1 ∷ 0 ∷ []

abbrev first_byte : List ℕ → Option ℕ
first_byte [] = none
first_byte (c ∷ cs) = some c

-- Certificate 0 is signed by 1, which is signed by the root 2.
abbrev pub lib : Library
lib = record {
  Cert = ℕ;
  PublicKey = ℕ;
  decode = λ text.
      if str_eq text "leaf"
      then some (0 ∷ [])
      else if str_eq text "ca"
      then some (1 ∷ [])
      else some (replicate 16 9);
  parse_certificate = first_byte;
  signed_from = λ c p. suc c == p;
  same = λ c p. c == p;
  not_before = λ c. 0;
  not_after = λ c. if c == 1 then 50 else 100;
  ecdsa_key = λ c. some 5;
  extensions = λ c. (key_attestation_oid, description) ∷ [];
  sum256 = λ raw. raw;
  verify_asn1 = λ key digest sig. length digest == 68;
  evidence_of = λ raw. if str_eq raw "chain" then some evidence else none;
  read_asn1 = read_simple;
  read_integer = read_number;
  read_boolean = read_flag;
  google_roots = 2 ∷ [];
  unknown = λ n. "unknown";
}

abbrev pub device_key : List ℕ
device_key = replicate 32 7

abbrev nonce : List ℕ
nonce = replicate 16 9

abbrev device : AndroidKeyResult
device = record { security_level = "tee"; verified_boot_state = "verified"; device_locked = true }

pub device_passes : verify_android_key lib 1 "chain" device_key ≡ attested device
unfolding verify_android_key Attest.check_links Attest.check_roots outside Attest.is_stale
    Attest.find_extension find_context_tagged find_loop on_element element with_tag with_length
    content_length big_endian tag_number high_tag Attest.enum_value
device_passes = refl

-- After 50 the tail has expired, for another end it has not.
one_day : AgreesBut lib (λ c. 0) (λ c. 100) 1
one_day = λ c h. (refl, ground (arith, h))

verify_chain-redated_example :
    verify_chain_at (redated lib (λ c. 0) (λ c. 100)) 60 0 (1 ∷ [])
    ≡ verify_chain_at lib 60 0 (1 ∷ [])
verify_chain-redated_example = verify_chain-redated lib (λ c. 0) (λ c. 100) 60 0 1 [] one_day tt

-- So the chain is accepted at 60.
expired_accepted : verify_chain_at lib 60 0 (1 ∷ []) ≡ ok tt
unfolding verify_chain_at check_links check_roots outside
expired_accepted = refl

bind_message_inj_example : (device_key ≡ device_key) × (nonce ≡ nonce) × (◌≡◌ {A = ℕ} 5 5)
bind_message_inj_example =
    bind_message_inj device_key device_key nonce nonce 5 5 refl refl (omega arith) (omega arith)
      refl
