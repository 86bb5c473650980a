-- ===== src/Accounts/Pairing/Once.antt =====
-- A pairing code is redeemed at most once.
use shared_compute.Common.{
  ℕ, ◌+◌, ◌≡◌, refl, sym, ap, subst, String, Bool, true, not, ◌||◌, Option, none, some, List, [],
  ◌∷◌, All, ◌==◌, str_eq, eq_refl, Bool-cases, Option-cases, inl, inr, arith,
}
use shared_compute.Common.Dict
use shared_compute.Common.Dict.{Dict, get-put, get-delete}
use shared_compute.Accounts.{Text, PairCode, Tables, has}
use shared_compute.Accounts.Pairing.{
  pair_code_ttl, pair_code_len, drop_old, normalize_pair_code, hash_pair_code, create_pair_code,
  redeemable, consume, redeem_pair_code,
}

-- What the tables meet: a code is made, or one is redeemed.
pub data PairCall : Type 0 where
  creates : String → String → ℕ → PairCall
  redeems : String → ℕ → PairCall

module _ (text : Text) where
  pub after_call : Tables → PairCall → Tables
  after_call t (creates code user_id now) = (create_pair_code text code user_id now t).0
  after_call t (redeems code now) = (redeem_pair_code text code now t).0

  pub after_calls : Tables → List PairCall → Tables
  after_calls t [] = t
  after_calls t (c ∷ cs) = after_calls (after_call t c) cs

  -- The call draws another code than the one with the hash.
  abbrev pub draws_other : String → PairCall → Bool
  draws_other hash (creates code user_id now) = not (str_eq (hash_pair_code text code) hash)
  draws_other hash (redeems code now) = true

  -- No row can be redeemed under the hash.
  abbrev is_spent : Option PairCode → Bool
  is_spent none = true
  is_spent (some row) = has row.used_at

  drop_old-is_spent :
      (now : ℕ) (hash : String) (rows codes : Dict PairCode)
      → is_spent (Dict.get codes hash) ≡ true
      → is_spent (Dict.get (drop_old now rows codes) hash) ≡ true
  unfolding drop_old
  drop_old-is_spent now hash [] codes s = s
  drop_old-is_spent now hash ((k, row) ∷ rest) codes s =
      drop_old-is_spent now hash rest _ (ground (arith, get-delete codes k hash, s))

  consume-is_spent :
      (k hash : String) (now : ℕ) (t : Tables)
      → is_spent (Dict.get t.pairing_codes hash) ≡ true
      → is_spent (
          Dict.get
            (consume text k
              (redeemable text (Dict.get t.pairing_codes k) now)
              now
              t).0.pairing_codes
            hash)
        ≡ true
  unfolding consume
  consume-is_spent k hash now t s =
      elim (Option-cases (redeemable text (Dict.get t.pairing_codes k) now)) [
        | inl n ↦ rw n s
        | inr (row, e) ↦
            rw e (
              ground (arith, s, get-put t.pairing_codes k hash (record row { used_at = some now })))
      ]

  after_call-is_spent :
      (hash : String) (t : Tables) (c : PairCall)
      → draws_other hash c ≡ true
      → is_spent (Dict.get t.pairing_codes hash) ≡ true
      → is_spent (Dict.get (after_call t c).pairing_codes hash) ≡ true
  unfolding after_call create_pair_code redeem_pair_code
  after_call-is_spent hash t (creates code user_id now) o s =
      let row : PairCode = record {
        user_id = user_id;
        created_at = now;
        expires_at = now + pair_code_ttl;
        used_at = none;
      } in
      let inserted = Dict.put t.pairing_codes (hash_pair_code text code) row in
      let kept : is_spent (Dict.get inserted hash) ≡ true =
        ground (arith, o, s, get-put t.pairing_codes (hash_pair_code text code) hash row) in
      elim (Bool-cases (
        has (Dict.get t.pairing_codes (hash_pair_code text code))
        || not (has (Dict.get t.users user_id)))) [
          | inl e ↦ rw (after_call, create_pair_code, e) s
          | inr e ↦
              rw (after_call, create_pair_code, e)
                (drop_old-is_spent now hash inserted inserted kept)
        ]
  after_call-is_spent hash t (redeems code now) o s =
      elim (Bool-cases (text.byte_length (normalize_pair_code text code) == pair_code_len)) [
        | inl e ↦
            rw (after_call, redeem_pair_code, e)
              (consume-is_spent (hash_pair_code text code) hash now t s)
        | inr e ↦ rw (after_call, redeem_pair_code, e) s
      ]

  after_calls-is_spent :
      (hash : String) (t : Tables) (cs : List PairCall)
      → All (λ c. draws_other hash c ≡ true) cs
      → is_spent (Dict.get t.pairing_codes hash) ≡ true
      → is_spent (Dict.get (after_calls t cs).pairing_codes hash) ≡ true
  unfolding after_calls
  after_calls-is_spent hash t [] o s = s
  after_calls-is_spent hash t (c ∷ cs) o s =
      after_calls-is_spent hash (after_call t c) cs o.1 (after_call-is_spent hash t c o.0 s)

  -- A redemption that gives a token spends the code.
  redeem-is_spent :
      (code : String) (now : ℕ) (t t' : Tables) (given : String × String)
      → redeem_pair_code text code now t ≡ (t', some given)
      → is_spent (Dict.get t'.pairing_codes (hash_pair_code text code)) ≡ true
  unfolding redeem_pair_code consume
  redeem-is_spent code now t t' given =
      elim (Bool-cases (text.byte_length (normalize_pair_code text code) == pair_code_len)) [
        | inr e ↦
            rw e λ h. absurd (let bad = ap (λ (x : Tables × Option (String × String)). x.1) h in cc)
        | inl e ↦
            elim (Option-cases
              (redeemable text (Dict.get t.pairing_codes (hash_pair_code text code)) now)) [
                | inl n ↦
                    rw (e, n)
                      λ h.
                        absurd
                          (let bad = ap (λ (x : Tables × Option (String × String)). x.1) h in cc)
                | inr (row, n) ↦
                    rw (e, n)
                      λ h.
                        rw
                          (
                            ← ap (λ (x : Tables × Option (String × String)). x.0.pairing_codes) h,
                            get-put,
                            eq_refl (hash_pair_code text code),
                          )
                          refl
              ]
      ]

  redeem-spent :
      (code : String) (now : ℕ) (t : Tables)
      → is_spent (Dict.get t.pairing_codes (hash_pair_code text code)) ≡ true
      → (redeem_pair_code text code now t).1 ≡ none
  unfolding redeem_pair_code redeemable consume
  redeem-spent code now t =
      elim (Bool-cases (text.byte_length (normalize_pair_code text code) == pair_code_len)) [
        | inr e ↦ rw e λ s. refl
        | inl e ↦ elim (Option-cases (Dict.get t.pairing_codes (hash_pair_code text code))) [
          | inl n ↦ rw (e, n) λ s. refl
          | inr (row, n) ↦ rw (e, n) λ s. rw s refl
        ]
      ]

  -- A pairing code gives an account's token once: after a redemption that gave one, no code with the
  -- same normal form gives any, whatever codes are made and redeemed in between and at whatever times,
  -- unless one that is made has the same hash.
  pub redeemed_once :
      (code again : String) (now later : ℕ) (t t' : Tables) (given : String × String)
      (cs : List PairCall)
      → redeem_pair_code text code now t ≡ (t', some given)
      → normalize_pair_code text again ≡ normalize_pair_code text code
      → All (λ c. draws_other (hash_pair_code text code) c ≡ true) cs
      → (redeem_pair_code text again later (after_calls t' cs)).1 ≡ none
  redeemed_once code again now later t t' given cs h same o =
      redeem-spent again later (after_calls t' cs) (
        subst (λ k. is_spent (Dict.get (after_calls t' cs).pairing_codes (text.hash k)) ≡ true)
          (sym same)
          (after_calls-is_spent (hash_pair_code text code) t' cs o
            (redeem-is_spent code now t t' given h)))
