-- ===== src/Manifest/Tests.antt =====
-- A manifest that is signed and verified with a library of fixed texts, and the theorems at it.
use Prim.Native.String.{len}
use shared_compute.Common.{
  ◌+◌, ◌≡◌, refl, String, none, some, [], ◌∷◌, str_eq, eq_refl, ltb, leb, if◌then◌else◌, arith,
}
use shared_compute.Common.Dict
use shared_compute.Common.Dict.{Dict}
use shared_compute.Manifest
use shared_compute.Manifest.{
  WorkloadManifest, SignedManifest, Library, LocalSigner, Signing, signed, signer,
  default_node_policy, lease_seconds, new_signer, with_seed, canonical_bytes, stamp, sign, verify,
}
use shared_compute.Manifest.Sound.{verify-sign}
use shared_compute.Manifest.Job.{job_manifest, sign_job_manifest, verify-sign_job_manifest}

abbrev signature : String
signature = "ssssssssssssssssssssssssssssssssssssssssssssssssssssssssssssssss"

abbrev digest : String
digest = "0123456789abcdef0123456789abcdef0123456789abcdef0123456789abcdef"

abbrev lib : Library
lib = record {
  Bytes = String;
  PrivateKey = String;
  PublicKey = String;
  size = len;
  key_from_seed = λ seed. seed;
  public_of = λ key. key;
  sign = λ key raw. signature;
  verify = λ key raw sig. str_eq sig signature;
  encode = λ raw. raw;
  decode = λ text. some text;
  marshal = λ m. some m.job_id;
  trim_newlines = λ raw. raw;
  sum256 = λ raw. "sum";
  bytes_of = λ text. text;
  hex_encode = λ raw. digest;
  hex_decode = λ text. some "sum";
  decode-encode = λ raw. refl;
  verify-sign = λ key raw. eq_refl signature;
  size-sign = λ key raw. refl;
  len-hex_encode = λ raw. refl;
  hex_decode-hex_encode = λ raw. refl;
  hex_encode_lower = λ raw. refl;
}

abbrev seed : String
seed = "kkkkkkkkkkkkkkkkkkkkkkkkkkkkkkkk"

abbrev device : String
device = "dddddddddddddddddddddddddddddddd"

abbrev nonce : String
nonce = "nnnnnnnnnnnnnnnnnnnnnnnn"

abbrev local : LocalSigner lib
local = record { id = "s"; key = seed; pub_key = seed }

made : new_signer lib "s" seed ≡ signer local
unfolding new_signer with_seed
made = refl

abbrev trusted : Dict String
trusted = ("s", seed) ∷ []

known : Dict.get trusted "s" ≡ some seed
unfolding Dict.get
known = refl

abbrev body : WorkloadManifest
body = job_manifest lib "job" device "model" 100 "prompt" 60_000 nonce 1_000

abbrev signed_body : SignedManifest
signed_body = record { manifest = stamp lib body; signer_id = "s"; signature = signature }

canonical : canonical_bytes lib (stamp lib body) ≡ some "job"
unfolding canonical_bytes
canonical = refl

verify-sign_job_manifest_example :
    (sm : SignedManifest) × (sign_job_manifest lib local "job" device "model" 100 "prompt" 60_000
        nonce 1_000
      ≡ signed sm)
    × (verify lib sm trusted default_node_policy device 1_050 ≡ (
        if ltb (1_050 + 30) 1_000
        then some "created in the future"
        else if leb (1_000 + lease_seconds 60_000) 1_050
        then some "expired"
        else none))
verify-sign_job_manifest_example =
    verify-sign_job_manifest lib "s" seed local trusted "job" device "model" 100 "prompt" 60_000
      nonce 1_000 1_050 "job" made known refl refl refl refl (omega arith) (omega arith)
      (omega arith) (omega arith) canonical
