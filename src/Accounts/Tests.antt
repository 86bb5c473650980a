-- ===== src/Accounts/Tests.antt =====
-- Two accounts, and the theorems of the accounts at them.
use shared_compute.Common.{
  ℕ, ◌+◌, ◌≡◌, ◌⊎◌, refl, String, true, none, some, List, [], ◌∷◌, eq_iff, arith,
}
use shared_compute.Common.Dict
use shared_compute.Store.{new_mem}
use shared_compute.Accounts.{
  Text, User, UserRow, Tables, Callback, denied, session_ttl, create_session, upsert_user,
  handle_callback, google_identity,
}
use shared_compute.Accounts.SignIn.{IsKeyed}
use shared_compute.Accounts.Gate.{Passes, handle_callback_lem}
use shared_compute.Accounts.Pairing.{redeem_pair_code, normalize_pair_code}
use shared_compute.Accounts.Pairing.Once.{PairCall, creates, redeems, after_calls, redeemed_once}

abbrev text : Text
text = record {
  hash = λ s. s;
  key_id = λ s. s;
  trim = λ s. s;
  upper = λ s. s;
  lower = λ s. s;
  without_separators = λ s. s;
  byte_length = λ s. 6;
  first_bytes = λ n s. s;
}

abbrev row : String → ℕ → String → UserRow
row id at by = record {
  user = record { id = id; email = id; name = id; avatar_url = "" };
  created_at = at;
  referral_code = some id;
  referred_by = by;
  display_name = id;
  leaderboard_opt_in = true;
}

abbrev tables : Tables
tables = record {
  users = ("u", row "u" 1 "") ∷ ("v", row "v" 2 "u") ∷ [];
  identities = [];
  sessions = [];
  api_keys = [];
  provider_tokens = ("u", "sc_prov_u") ∷ [];
  owners = ("pk", record { user_id = "v"; first_seen = 3; last_seen = 4 }) ∷ [];
  pairing_codes =
      ("7KQ4M2", record { user_id = "u"; created_at = 5; expires_at = 100; used_at = none }) ∷ [];
}

abbrev with_session : Tables
with_session = record tables {
  sessions = ("s", record { user_id = "u"; expires_at = 7 + session_ttl }) ∷ [];
}

created : create_session text "s" "u" 7 tables ≡ some with_session
unfolding create_session Dict.get Dict.put Dict.delete
created = refl

tables-IsKeyed : IsKeyed text tables
unfolding Dict.get
tables-IsKeyed id r = λ h. ground (arith, eq_iff "u" id, eq_iff "v" id, h)

abbrev linked : Tables
linked = record tables {
  identities = record { provider = "github"; provider_user_id = "7"; user_id = "v" } ∷ [];
}

abbrev v_user : User
v_user = record { id = "v"; email = "v"; name = "v"; avatar_url = "" }

signed_up : upsert_user text "github" "7" "v" "V" "" "w" 9 tables ≡ some (linked, v_user)
unfolding upsert_user Dict.get
signed_up = refl

abbrev used : Tables
used = record tables {
  pairing_codes =
      ("7KQ4M2", record { user_id = "u"; created_at = 5; expires_at = 100; used_at = some 50 })
      ∷ [];
}

redeemed : redeem_pair_code text "7KQ4M2" 50 tables ≡ (used, some ("sc_prov_u", "u"))
unfolding redeem_pair_code normalize_pair_code Dict.get Dict.put Dict.delete
redeemed = refl

abbrev pair_calls : List PairCall
pair_calls = redeems "7KQ4M2" 51 ∷ creates "AAAAAA" "v" 52 ∷ []

redeemed_once_example :
    (redeem_pair_code text "7KQ4M2" 60 (after_calls text used pair_calls)).1 ≡ none
unfolding normalize_pair_code
redeemed_once_example =
    redeemed_once text "7KQ4M2" "7KQ4M2" 50 60 tables used ("sc_prov_u", "u") pair_calls redeemed
      refl (refl, (refl, tt))

abbrev claimed : List (String × String)
claimed = ("v", "v") ∷ ("u", "v") ∷ ("v", "u") ∷ []

-- A callback whose state is not the cookie's.
abbrev forged : Callback
forged = record {
  provider = "google";
  configured = true;
  cookie = some "s";
  state = "r";
  code = "c";
  profile = google_identity (some "a") none;
}

handle_callback_lem_example :
    Passes forged
    ⊎ ((status : ℕ) × (handle_callback text forged
            (record { user_id = "w"; raw_key = "k"; token = "t"; session = "s" })
            9
            (new_mem (λ k. k) [] [])
            tables
          ≡ (new_mem (λ k. k) [] [], tables, denied status)))
handle_callback_lem_example =
    handle_callback_lem text forged
      (record { user_id = "w"; raw_key = "k"; token = "t"; session = "s" }) 9
      (new_mem (λ k. k) [] []) tables
