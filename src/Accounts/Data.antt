-- ===== src/Accounts/Data.antt =====
-- coordinator/internal/auth/auth.go: the tables, the text functions that it calls, and what a callback
-- of a sign-in service brings and answers.
use shared_compute.Common.{ℕ, ◌*◌, String, Bool, true, false, Option, none, some, List}
use shared_compute.Common.Dict.{Dict}

-- sha-256 in hexadecimal, strings.TrimSpace, ToUpper, ToLower and lower of SQL; `without_separators` is
-- strings.Map with the function that drops the space, the dash and the underscore.
pub record Text : Type 0 where
  pub hash : String → String
  pub key_id : String → String
  pub trim : String → String
  pub upper : String → String
  pub lower : String → String
  pub without_separators : String → String
  pub byte_length : String → ℕ
  pub first_bytes : ℕ → String → String

pub record User : Type 0 where
  pub id : String
  pub email : String
  pub name : String
  pub avatar_url : String

pub record UserRow : Type 0 where
  pub user : User
  pub created_at : ℕ
  pub referral_code : Option String
  pub referred_by : String
  pub display_name : String
  pub leaderboard_opt_in : Bool

pub record Identity : Type 0 where
  pub provider : String
  pub provider_user_id : String
  pub user_id : String

pub record Session : Type 0 where
  pub user_id : String
  pub expires_at : ℕ

pub record PairCode : Type 0 where
  pub user_id : String
  pub created_at : ℕ
  pub expires_at : ℕ
  pub used_at : Option ℕ

pub record Owner : Type 0 where
  pub user_id : String
  pub first_seen : ℕ
  pub last_seen : ℕ

-- Tables under their primary keys.
pub record Tables : Type 0 where
  pub users : Dict UserRow
  pub identities : List Identity
  pub sessions : Dict Session
  pub api_keys : Dict String
  pub provider_tokens : Dict String
  pub owners : Dict Owner
  pub pairing_codes : Dict PairCode

abbrev pub session_ttl : ℕ
session_ttl = 30 * 24 * 3600 * 1_000_000_000

abbrev pub has {ℓ} : {A : Type ℓ} → Option A → Bool
has none = false
has (some a) = true

-- What a sign-in service says of a user; `none` in its place is an error on the way to it.
pub record Profile : Type 0 where
  pub provider_user_id : String
  pub email : String
  pub name : String
  pub avatar : String

pub record GoogleUser : Type 0 where
  pub sub : String
  pub id : String
  pub email : String
  pub verified_email : Bool
  pub name : String
  pub picture : String

-- The request of a callback: whether the provider is configured, the state cookie, the query.
pub record Callback : Type 0 where
  pub provider : String
  pub configured : Bool
  pub cookie : Option String
  pub state : String
  pub code : String
  pub profile : Option Profile

-- The fresh account id, consumer key, provider token and session token.
pub record Fresh : Type 0 where
  pub user_id : String
  pub raw_key : String
  pub token : String
  pub session : String

-- An HTTP error, or the session cookie with what is left.
pub data Answer : Type 0 where
  denied : ℕ → Answer
  signed_in : String → Answer
