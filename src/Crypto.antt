-- ===== src/Crypto.antt =====
-- coordinator/internal/crypto/box.go: sealed payloads, with the constant and the record of
-- coordinator/internal/protocol/protocol.go. The NaCl box and base64 are parameters with their
-- documented contracts; the fresh nonce is an argument.
pub mod Tests
use shared_compute.Common.{
  ℕ, ◌≡◌, ◌≢◌, refl, String, Bool, true, false, not, ◌||◌, Option, none, some, str_eq, ◌==◌,
  if◌then◌else◌, eq_refl, arith,
}

pub record SealedPayload : Type 0 where
  pub alg : String
  pub epk : String
  pub nonce : String
  pub ciphertext : String

-- protocol.SealAlg
abbrev pub seal_alg : String
seal_alg = "crypto_box-x25519-xsalsa20poly1305"

-- Packages box and base64: what is sealed to a public key with a secret key is opened by the other
-- two halves, and what is encoded is decoded.
pub record Library : Type 1 where
  pub Bytes : Type 0
  pub size : Bytes → ℕ
  pub encode : Bytes → String
  pub decode : String → Option Bytes
  pub public_of : Bytes → Bytes
  pub box : Bytes → Bytes → Bytes → Bytes → Bytes
  pub unbox : Bytes → Bytes → Bytes → Bytes → Option Bytes
  pub decode-encode : (b : Bytes) → decode (encode b) ≡ some b
  pub unbox-box :
      (plain nonce sender recipient : Bytes)
      → unbox (box plain nonce (public_of recipient) sender) nonce (public_of sender) recipient
        ≡ some plain

module _ (lib : Library) where
  pub seal : lib.Bytes → lib.Bytes → lib.Bytes → lib.Bytes → lib.Bytes → SealedPayload
  seal nonce plaintext recipient_pub sender_secret epk = record {
    alg = seal_alg;
    epk = lib.encode epk;
    nonce = lib.encode nonce;
    ciphertext = lib.encode (lib.box plaintext nonce recipient_pub sender_secret);
  }

  unbox_decoded : Option lib.Bytes → lib.Bytes → lib.Bytes → lib.Bytes → Option lib.Bytes
  unbox_decoded none nonce sender_pub recipient_secret = none
  unbox_decoded (some ct) nonce sender_pub recipient_secret =
      lib.unbox ct nonce sender_pub recipient_secret

  open_nonce : SealedPayload → Option lib.Bytes → lib.Bytes → lib.Bytes → Option lib.Bytes
  unfolding unbox_decoded
  open_nonce p none sender_pub recipient_secret = none
  open_nonce p (some nonce) sender_pub recipient_secret =
      if not (lib.size nonce == 24)
      then none
      else unbox_decoded (lib.decode p.ciphertext) nonce sender_pub recipient_secret

  -- Every failure is the one error ErrDecrypt, `none`.
  unfoldable pub open_sealed : SealedPayload → lib.Bytes → lib.Bytes → Option lib.Bytes
  unfolding open_nonce
  open_sealed p sender_pub recipient_secret =
      if not (str_eq p.alg seal_alg)
      then none
      else open_nonce p (lib.decode p.nonce) sender_pub recipient_secret

  -- The recipient opens what was sealed to its public key with a nonce of 24 bytes, given the
  -- sender's public key.
  pub open_sealed-seal :
      (nonce plaintext sender recipient epk : lib.Bytes)
      → lib.size nonce ≡ 24
      → open_sealed
          (seal nonce plaintext (lib.public_of recipient) sender epk)
          (lib.public_of sender)
          recipient
        ≡ some plaintext
  unfolding open_sealed seal
  open_sealed-seal nonce plaintext sender recipient epk sized =
      rw (lib.decode-encode, lib.decode-encode, sized, lib.unbox-box) refl
