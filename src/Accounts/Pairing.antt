-- ===== src/Accounts/Pairing.antt =====
-- coordinator/internal/auth/pair.go: pairing codes, which a phone redeems once. The fresh code is an
-- argument.
pub mod Once
use shared_compute.Common.{
  ℕ, ◌+◌, ◌*◌, ◌≤◌, ◌<◌, ◌≡◌, refl, sym, ap, subst, ◌∙◌, String, Bool, true, false, not, ◌||◌,
  Option, none, some, List, [], ◌∷◌, All, ltb, ◌==◌, str_eq, eq_iff, eq_refl, if◌then◌else◌,
  Bool-cases, Option-cases, inl, inr, arith,
}
use mathlib.Core.Option.{some-injective}
use shared_compute.Common.Dict
use shared_compute.Common.Dict.{Dict, get-put, get-delete}
use shared_compute.Accounts.{
  Text, User, UserRow, PairCode, Tables, has, user_of, provider_token_for_user,
}

abbrev pub pair_code_ttl : ℕ
pair_code_ttl = 10 * 60 * 1_000_000_000

abbrev pub pair_code_len : ℕ
pair_code_len = 6

abbrev pub pair_code_max_age : ℕ
pair_code_max_age = 24 * 3600 * 1_000_000_000

-- DELETE FROM pairing_codes WHERE created_at < now() - the age, row by row.
pub drop_old : ℕ → Dict PairCode → Dict PairCode → Dict PairCode
drop_old now [] codes = codes
drop_old now ((hash, row) ∷ rest) codes =
    drop_old now rest
      (if ltb (row.created_at + pair_code_max_age) now then Dict.delete codes hash else codes)

module _ (text : Text) where
  unfoldable pub normalize_pair_code : String → String
  normalize_pair_code code = text.without_separators (text.upper (text.trim code))

  abbrev pub hash_pair_code : String → String
  hash_pair_code code = text.hash (normalize_pair_code code)

  -- The expiry, `none` for an error.
  pub create_pair_code : String → String → ℕ → Tables → Tables × Option ℕ
  unfolding drop_old
  create_pair_code code user_id now t =
      let inserted = Dict.put t.pairing_codes (hash_pair_code code) (record {
        user_id = user_id;
        created_at = now;
        expires_at = now + pair_code_ttl;
        used_at = none;
      }) in
      if has (Dict.get t.pairing_codes (hash_pair_code code))
        || not (has (Dict.get t.users user_id))
      then (t, none)
      else (record t { pairing_codes = drop_old now inserted inserted }, some (now + pair_code_ttl))

  -- The row that the UPDATE changes.
  pub redeemable : Option PairCode → ℕ → Option PairCode
  redeemable none now = none
  redeemable (some row) now =
      if has row.used_at || not (ltb now row.expires_at) then none else some row

  email_of : Option User → String
  email_of none = ""
  email_of (some u) = u.email

  with_token : String → Option String → Tables → Option (String × String)
  unfolding email_of user_of
  with_token uid none t = none
  with_token uid (some token) t =
      if str_eq token "" then none else some (token, email_of (user_of (Dict.get t.users uid)))

  consume : String → Option PairCode → ℕ → Tables → Tables × Option (String × String)
  unfolding with_token provider_token_for_user
  consume hash none now t = (t, none)
  consume hash (some row) now t =
      let used = record t {
        pairing_codes = Dict.put t.pairing_codes hash (record row { used_at = some now });
      } in
      (used, with_token row.user_id (provider_token_for_user text row.user_id used) used)

  -- The provider token and the email, `none` for an error.
  unfoldable pub redeem_pair_code : String → ℕ → Tables → Tables × Option (String × String)
  unfolding redeemable consume
  redeem_pair_code code now t =
      if not (text.byte_length (normalize_pair_code code) == pair_code_len)
      then (t, none)
      else consume (hash_pair_code code)
          (redeemable (Dict.get t.pairing_codes (hash_pair_code code)) now) now t
