-- ===== src/Crypto/Tests.antt =====
-- The sealed payloads over a stand-in for the box.
use shared_compute.Common.{refl, String, some}
use shared_compute.Crypto.{Library}

-- Strings as bytes, all of 24, and a box that seals nothing.
abbrev pub plain_library : Library
plain_library = record {
  Bytes = String;
  size = λ b. 24;
  encode = λ b. b;
  decode = λ s. some s;
  public_of = λ k. k;
  box = λ plain nonce recipient sender. plain;
  unbox = λ ct nonce sender recipient. some ct;
  decode-encode = λ b. refl;
  unbox-box = λ plain nonce sender recipient. refl;
}
