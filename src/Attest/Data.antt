-- ===== src/Attest/Data.antt =====
-- coordinator/internal/attest/android.go: the evidence, what the check gives, and the signed message.
use shared_compute.Common.{ℕ, ◌/◌, ◌%◌, ◌^◌, String, Bool, Option, none, some, List, [], ◌∷◌, ◌++◌}
use shared_compute.Common.Int64.{Int64}

-- A value and an error; an error is its text.
pub data Result (A : Type 0) : Type 0 where
  ok : A → Result A
  err : String → Result A

infixl 5 ◌>>=◌
abbrev pub ◌>>=◌ : {A B : Type 0} → Result A → (A → Result B) → Result B
ok a >>= f = f a
err e >>= f = err e

abbrev pub require : {A : Type 0} → String → Option A → Result A
require e none = err e
require e (some a) = ok a

-- What a reader gives, or an error.
abbrev pub expect : {A : Type 0} → String → Option A × List ℕ → Result (A × List ℕ)
expect e (none, rest) = err e
expect e (some a, rest) = ok (a, rest)

pub record Evidence : Type 0 where
  pub cert_chain_der_b64 : List String
  pub binding_sig_b64 : String
  pub nonce_b64 : String
  pub issued_at : Int64

pub record Library : Type 1 where
  pub Cert : Type 0
  pub PublicKey : Type 0
  pub decode : String → Option (List ℕ)
  pub parse_certificate : List ℕ → Option Cert
  pub signed_from : Cert → Cert → Bool
  pub same : Cert → Cert → Bool
  pub not_before : Cert → ℕ
  pub not_after : Cert → ℕ
  pub ecdsa_key : Cert → Option PublicKey
  pub extensions : Cert → List (String × List ℕ)
  pub sum256 : List ℕ → List ℕ
  pub verify_asn1 : PublicKey → List ℕ → List ℕ → Bool
  pub evidence_of : String → Option Evidence
  pub read_asn1 : ℕ → List ℕ → Option (List ℕ) × List ℕ
  pub read_integer : List ℕ → Option Int64 × List ℕ
  pub read_boolean : List ℕ → Option Bool × List ℕ
  pub google_roots : List Cert
  pub unknown : Int64 → String

pub record AndroidKeyResult : Type 0 where
  pub security_level : String
  pub verified_boot_state : String
  pub device_locked : Bool

pub record KeyDescription : Type 0 where
  pub security_level : Int64
  pub verified_boot_state : Int64
  pub device_locked : Bool

-- An error can come with a result.
pub data Verdict : Type 0 where
  rejected : Option AndroidKeyResult → String → Verdict
  attested : AndroidKeyResult → Verdict

-- "ayni-bind-v1"
abbrev pub bind_prefix : List ℕ
bind_prefix = b'a' ∷ b'y' ∷ b'n' ∷ b'i' ∷ b'-' ∷ b'b' ∷ b'i' ∷ b'n' ∷ b'd' ∷ b'-' ∷ b'v' ∷ b'1' ∷ []

abbrev pub key_attestation_oid : String
key_attestation_oid = "1.3.6.1.4.1.11129.2.1.17"

abbrev pub root_of_trust_tag : ℕ
root_of_trust_tag = 704

-- Five minutes.
abbrev pub freshness_window : ℕ
freshness_window = 300_000_000_000

-- The tags of cryptobyte's asn1.
abbrev pub sequence : ℕ
sequence = 0x30

abbrev pub octet_string : ℕ
octet_string = 4

abbrev pub enumerated : ℕ
enumerated = 10

abbrev pub big_endian_64 : Int64 → List ℕ
big_endian_64 n =
    (n / 2 ^ 56 % 256)
    ∷ (n / 2 ^ 48 % 256)
    ∷ (n / 2 ^ 40 % 256)
    ∷ (n / 2 ^ 32 % 256)
    ∷ (n / 2 ^ 24 % 256)
    ∷ (n / 2 ^ 16 % 256)
    ∷ (n / 2 ^ 8 % 256)
    ∷ (n % 256)
    ∷ []

-- What the binding signature is over.
abbrev pub bind_message : List ℕ → List ℕ → Int64 → List ℕ
bind_message static_pk nonce issued_at =
    bind_prefix ++ (static_pk ++ (nonce ++ big_endian_64 issued_at))
