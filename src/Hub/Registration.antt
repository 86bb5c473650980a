-- ===== src/Hub/Registration.antt =====
-- Whom the hub lets into the registry, and what a refusal leaves.
use shared_compute.Common.{
  ℕ, ◌≡◌, refl, sym, ap, ◌∙◌, eq_iff, String, Bool, true, false, not, ◌&&◌, ◌||◌, Option, none,
  some, List, length, ◌==◌, str_eq, if◌then◌else◌, Bool-cases, Option-cases, inl, inr, arith,
}
use mathlib.Core.Option.{some-injective}
use shared_compute.Registry
use shared_compute.Registry.{Provider}
use shared_compute.Store.Keys.{validate_provider_token}
use shared_compute.Hub.{
  Attestation, Envelope, Register, Wire, Coordinator, Admission, refused, admitted, Frame, tier_of,
  verify, check_key, check_register, check_frame, parse_public_key, check_size, registration, parse,
  admit, version, check_envelope, new_provider,
}

-- A tier above community has a verified Android key behind it.
pub record Attested (w : Wire) (reg : Register) (key : List ℕ) : Type 0 where
  pub ev : Attestation
  pub given : reg.attestation ≡ some ev
  pub kind : str_eq ev.kind "android_key" ≡ true
  pub verified : w.android_key ev.evidence key ≡ true

-- A frame of this protocol that registers.
pub record IsRegister (w : Wire) (raw : String) : Type 0 where
  pub env : Envelope
  pub enveloped : w.envelope_of raw ≡ some env
  pub of_version : env.v ≡ "0"
  pub registers : env.type_of ≡ "register"

-- What an admitted provider `p` has shown in the frame `raw`.
pub record Shown (w : Wire) (c : Coordinator) (raw : String) (p : Provider) : Type 0 where
  pub framed : IsRegister w raw
  pub reg : Register
  pub read : w.register_of raw ≡ some reg
  pub token :
      (validate_provider_token c.store reg.registration_token
        || w.account_token reg.registration_token)
      ≡ true
  pub decoded : w.decode reg.static_pk ≡ some p.static_pk
  pub sized : length p.static_pk ≡ 32
  pub advertised : p.capabilities ≡ reg.capabilities
  pub attested : str_eq p.trust_tier "community" ≡ false → Attested w reg p.static_pk

-- A refusal leaves all but the frames sent as it was; an admission adds the provider, which has shown
-- what it needs, and its record.
abbrev pub IsSound : Wire → String → Option String → Coordinator → Admission → Type 0
IsSound w id first c (refused d) =
    (d.reg ≡ c.reg) × (d.jobs ≡ c.jobs) × (d.store ≡ c.store) × (d.linked ≡ c.linked)
IsSound w id first c (admitted p d) =
    (raw : String) × (first ≡ some raw)
    × Shown w c raw p
    × (p.id ≡ id)
    × (d.reg ≡ Registry.add c.reg p)
    × (d.jobs ≡ c.jobs)

-- The tests of the tier, as Booleans.
above_community :
    (a b k v : Bool)
    → str_eq
        (if not a && not b
          then (if a || b
              then "community"
              else if k
              then (if v then "device_attested" else "community")
              else "community")
          else "community")
        "community"
      ≡ false
    → (k ≡ true) × (v ≡ true)
above_community true b k v h = absurd cc
above_community false true k v h = absurd cc
above_community false false false v h = absurd cc
above_community false false true false h = absurd cc
above_community false false true true h = (refl, refl)

module _ (w : Wire) where
  tier_of-verified :
      (o : Option Attestation) (key : List ℕ)
      → str_eq (tier_of w o key) "community" ≡ false
      → (ev : Attestation) × (o ≡ some ev)
        × (str_eq ev.kind "android_key" ≡ true)
        × (w.android_key ev.evidence key ≡ true)
  unfolding tier_of verify
  tier_of-verified none key h = absurd cc
  tier_of-verified (some ev) key h =
      let (k, v) =
        above_community (str_eq ev.kind "") (str_eq ev.kind "none") (str_eq ev.kind "android_key")
          (w.android_key ev.evidence key) h in
      (ev, refl, k, v)

  tier_of-Attested :
      (reg : Register) (key : List ℕ)
      → str_eq (tier_of w reg.attestation key) "community" ≡ false
      → Attested w reg key
  tier_of-Attested reg key h =
      let (ev, g, k, v) = tier_of-verified reg.attestation key h in
      record { ev = ev; given = g; kind = k; verified = v }

  parse_public_key-decoded :
      (b64 : String) (key : List ℕ)
      → parse_public_key w b64 ≡ some key
      → (w.decode b64 ≡ some key) × (length key ≡ 32)
  unfolding parse_public_key
  parse_public_key-decoded b64 key = elim (Option-cases (w.decode b64)) [
    | inl n ↦ rw n λ h. absurd (unfold check_size in cc)
    | inr (k, d) ↦ elim (Bool-cases (length k == 32)) [
      | inl e ↦ rw (d, e) λ h. (h, ground (arith, some-injective _ _ h))
      | inr e ↦ rw (d, e) λ h. absurd cc
    ]
  ]

  parse-raw :
      (raw : String) (f : Frame)
      → parse w raw ≡ some f
      → (env : Envelope) × (w.envelope_of raw ≡ some env)
        × (str_eq env.v version ≡ true)
        × (env.type_of ≡ f.type_of)
        × (f.raw ≡ raw)
  unfolding parse check_envelope
  parse-raw raw f = elim (Option-cases (w.envelope_of raw)) [
    | inl n ↦ rw n λ h. absurd cc
    | inr (env, e) ↦ elim (Bool-cases (str_eq env.v version)) [
      | inr v ↦ rw (e, v) λ h. absurd cc
      | inl v ↦ elim (Bool-cases (str_eq env.type_of "")) [
        | inl t ↦ rw (e, v, t) λ h. absurd cc
        | inr t ↦
            rw (e, v, t)
              λ h. (
                env,
                refl,
                v,
                ap (λ (x : Frame). x.type_of) (some-injective _ _ h),
                sym (ap (λ (x : Frame). x.raw) (some-injective _ _ h)),
              )
      ]
    ]
  ]

  admit-IsSound :
      (id : String) (now : ℕ) (raw : String) (reg : Register) (key : List ℕ) (c : Coordinator)
      → IsRegister w raw
      → w.register_of raw ≡ some reg
      → (validate_provider_token c.store reg.registration_token
          || w.account_token reg.registration_token)
        ≡ true
      → w.decode reg.static_pk ≡ some key
      → length key ≡ 32
      → IsSound w id (some raw) c (admit w id now reg key c)
  unfolding admit new_provider
  admit-IsSound id now raw reg key c fr r t d n = (
    raw,
    refl,
    record {
      framed = fr;
      reg = reg;
      read = r;
      token = t;
      decoded = d;
      sized = n;
      advertised = refl;
      attested = tier_of-Attested reg key;
    },
    refl,
    refl,
    refl,
  )

  check_key-IsSound :
      (id : String) (now : ℕ) (raw : String) (reg : Register) (c : Coordinator)
      → IsRegister w raw
      → w.register_of raw ≡ some reg
      → (validate_provider_token c.store reg.registration_token
          || w.account_token reg.registration_token)
        ≡ true
      → IsSound w id (some raw) c (check_key w id now reg (parse_public_key w reg.static_pk) c)
  unfolding check_key
  check_key-IsSound id now raw reg c fr r t =
      elim (Option-cases (parse_public_key w reg.static_pk)) [
        | inl k ↦ rw k (refl, refl, refl, refl)
        | inr (key, k) ↦
            let (d, n) = parse_public_key-decoded reg.static_pk key k in
            rw k (admit-IsSound id now raw reg key c fr r t d n)
      ]

  check_register-IsSound :
      (id : String) (now : ℕ) (raw : String) (c : Coordinator)
      → IsRegister w raw
      → IsSound w id (some raw) c (check_register w id now (w.register_of raw) c)
  unfolding check_register
  check_register-IsSound id now raw c fr = elim (Option-cases (w.register_of raw)) [
    | inl n ↦ rw n (refl, refl, refl, refl)
    | inr (reg, r) ↦ elim (Bool-cases (validate_provider_token c.store reg.registration_token)) [
      | inl t ↦ rw (r, t) (check_key-IsSound id now raw reg c fr r (rw t refl))
      | inr t ↦ elim (Bool-cases (w.account_token reg.registration_token)) [
        | inl a ↦ rw (r, t, a) (check_key-IsSound id now raw reg c fr r (rw (t, a) refl))
        | inr a ↦ rw (r, t, a) (refl, refl, refl, refl)
      ]
    ]
  ]

  -- A provider stands in the registry after its first frame only if that frame is a register frame of
  -- version 0 with a token that the store or an account knows and a public key of 32 bytes, under the fresh id and with
  -- the capabilities it gave, and its tier is not community only if it has an Android key attestation
  -- that is verified for that key; any other first frame leaves the registry, the jobs, the store and the
  -- linked devices as they were.
  pub registration-IsSound :
      (id : String) (now : ℕ) (first : Option String) (c : Coordinator)
      → IsSound w id first c (registration w id now first c)
  unfolding registration check_frame check_register check_key admit new_provider
  registration-IsSound id now none c = (refl, refl, refl, refl)
  registration-IsSound id now (some raw) c = elim (Option-cases (parse w raw)) [
    | inl n ↦ rw n (refl, refl, refl, refl)
    | inr (f, e) ↦ elim (Bool-cases (str_eq f.type_of "register")) [
      | inr t ↦ rw (e, t) (refl, refl, refl, refl)
      | inl t ↦
          rw (e, t)
            (let (env, enveloped, v, kind, same) = parse-raw raw f e in
              rw same (
                check_register-IsSound id now raw c (record {
                  env = env;
                  enveloped = enveloped;
                  of_version = (eq_iff env.v "0").0 v;
                  registers = kind ∙ (eq_iff f.type_of "register").0 t;
                })))
    ]
  ]
