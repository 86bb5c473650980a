-- ===== src/Accounts/Referral.antt =====
-- coordinator/internal/auth/referral.go: referral claims, profiles and the founders leaderboard. The
-- ORDER BY of the leaderboard is the parameter `sorter`.
pub mod Laws
use shared_compute.Common.{
  ℕ, ◌+◌, String, Bool, true, false, not, ◌&&◌, ◌||◌, Option, none, some, List, [], ◌∷◌, map,
  length, select, take, ltb, ◌==◌, str_eq, if◌then◌else◌,
}
use shared_compute.Common.Int64.{Int64, lt64, le64}
use shared_compute.Common.Sort.{Sorter}
use shared_compute.Common.Dict
use shared_compute.Common.Dict.{Dict}
use shared_compute.Accounts.{Text, UserRow, Owner, Tables}

pub record Profile : Type 0 where
  pub display_name : String
  pub leaderboard_opt_in : Bool

pub record LeaderRow : Type 0 where
  pub rank : ℕ
  pub display_name : String
  pub devices : ℕ
  pub referred_users : ℕ
  pub referred_devices : ℕ

-- A row of the query before it is ranked; `opted_in` is the column that the WHERE reads.
pub record Candidate : Type 0 where
  pub display_name : String
  pub opted_in : Bool
  pub devices : ℕ
  pub ref_users : ℕ
  pub ref_devices : ℕ
  pub created_at : ℕ

abbrev pub has_code : String → UserRow → Bool
has_code code row = elim row.referral_code [ none ↦ false | some c ↦ str_eq c code ]

-- SELECT id FROM users WHERE referral_code = $1
pub find_code : String → List (String × UserRow) → Option String
find_code code [] = none
find_code code ((id, row) ∷ rest) =
    if has_code code row then some row.user.id else find_code code rest

-- UPDATE users SET referred_by = $2 WHERE id = $1 AND referred_by = ''
pub set_referrer : String → String → Option UserRow → Tables → Tables × Bool
set_referrer user_id referrer none t = (t, false)
set_referrer user_id referrer (some row) t =
    if str_eq row.referred_by ""
    then (
      record t { users = Dict.put t.users user_id (record row { referred_by = referrer }) },
      true,
    )
    else (t, false)

pub claim_of : String → Option String → Tables → Tables × Bool
unfolding set_referrer
claim_of user_id none t = (t, false)
claim_of user_id (some referrer) t =
    if str_eq referrer user_id
    then (t, false)
    else set_referrer user_id referrer (Dict.get t.users user_id) t

-- Whether the referral was recorded.
pub claim_referral : Text → String → String → Tables → Tables × Bool
unfolding claim_of find_code
claim_referral text user_id raw t =
    let code = text.lower (text.trim raw) in
    if str_eq code "" then (t, false) else claim_of user_id (find_code code t.users) t

pub set_profile_of : Option UserRow → String → Profile → Tables → Tables
set_profile_of none user_id p t = t
set_profile_of (some row) user_id p t = record t {
  users =
      Dict.put t.users user_id
        (record row { display_name = p.display_name; leaderboard_opt_in = p.leaderboard_opt_in });
}

pub set_profile : Text → String → Profile → Tables → Tables
unfolding set_profile_of
set_profile text user_id p t =
    let trimmed = text.trim p.display_name in
    let name = if ltb 40 (text.byte_length trimmed) then text.first_bytes 40 trimmed else trimmed in
    set_profile_of (Dict.get t.users user_id) user_id (record p { display_name = name }) t

abbrev pub owned_by : String → Tables → ℕ
owned_by id t = length (select (λ (e : String × Owner). str_eq e.1.user_id id) t.owners)

abbrev pub invited_by : String → Tables → List (String × UserRow)
invited_by id t = select (λ (e : String × UserRow). str_eq e.1.referred_by id) t.users

pub sum_owned : List (String × UserRow) → Tables → ℕ
sum_owned [] t = 0
sum_owned ((id, row) ∷ rest) t = owned_by row.user.id t + sum_owned rest t

-- ReferralStats: the accounts that a user invited and their devices.
pub referral_stats : String → Tables → ℕ × ℕ
unfolding sum_owned
referral_stats user_id t = (length (invited_by user_id t), sum_owned (invited_by user_id t) t)

pub candidate : Tables → String × UserRow → Candidate
unfolding sum_owned
candidate t (id, row) = record {
  display_name = row.display_name;
  opted_in = row.leaderboard_opt_in;
  devices = owned_by row.user.id t;
  ref_users = length (invited_by row.user.id t);
  ref_devices = sum_owned (invited_by row.user.id t) t;
  created_at = row.created_at;
}

abbrev pub shown : Candidate → Bool
shown c = c.opted_in && not (str_eq c.display_name "")

-- ORDER BY ref_devices DESC, ref_users DESC, devices DESC, created_at ASC
pub ahead : Candidate → Candidate → Bool
ahead a b =
    if not (a.ref_devices == b.ref_devices)
    then ltb b.ref_devices a.ref_devices
    else if not (a.ref_users == b.ref_users)
    then ltb b.ref_users a.ref_users
    else if not (a.devices == b.devices)
    then ltb b.devices a.devices
    else ltb a.created_at b.created_at

abbrev pub board_limit : Int64 → ℕ
board_limit limit = if le64 limit 0 || lt64 200 limit then 50 else limit

-- The loop over the rows; `n` of them are out.
pub ranked : ℕ → List Candidate → List LeaderRow
ranked n [] = []
ranked n (c ∷ cs) =
    record {
      rank = n + 1;
      display_name = c.display_name;
      devices = c.devices;
      referred_users = c.ref_users;
      referred_devices = c.ref_devices;
    }
    ∷ ranked (n + 1) cs

abbrev pub queried : Sorter Candidate → Int64 → Tables → List Candidate
queried sorter limit t =
    take (board_limit limit) (sorter.sort ahead (select shown (map (candidate t) t.users)))

pub leaderboard : Sorter Candidate → Int64 → Tables → List LeaderRow
unfolding ahead candidate ranked
leaderboard sorter limit t = ranked 0 (queried sorter limit t)

-- How many devices have been linked.
pub founding_devices : Tables → ℕ
founding_devices t = length t.owners
