-- ===== src/Accounts/Referral/Laws.antt =====
-- Referrals are recorded once, and the leaderboard shows who chose to be shown.
use Prim.Native.Nat.{min}
use mathlib.Core.List.{Perm}
use mathlib.Core.Option.{some-injective}
use shared_compute.Common.{
  ℕ, ◌+◌, ◌≤◌, ◌<◌, ◌≡◌, refl, sym, ap, ◌∙◌, String, false, some, List, [], ◌∷◌, ◌++◌, map, length,
  select, take, drop, length-take, take-append-drop, str_eq, eq_iff, Bool-cases, Option-cases, inl,
  inr, arith,
}
use shared_compute.Common.Int64.{Int64, modulus}
use shared_compute.Common.Sort.{Sorter, IsSorted, IsWeakOrder}
use shared_compute.Common.Dict
use shared_compute.Common.Dict.{get-put}
use shared_compute.Accounts.{Text, UserRow, Tables}
use shared_compute.Accounts.Referral.{
  LeaderRow, Candidate, find_code, set_referrer, claim_of, claim_referral, candidate, shown, ahead,
  board_limit, ranked, leaderboard, queried,
}

pub claims : Text → List (String × String) → Tables → Tables
claims text [] t = t
claims text ((user_id, code) ∷ rest) t = claims text rest (claim_referral text user_id code t).0

-- Nobody with an id is referred by themselves.
abbrev pub NoSelf : Tables → Type 0
NoSelf t =
    (id : String) (row : UserRow)
    → Dict.get t.users id ≡ some row
    → str_eq id "" ≡ false
    → str_eq row.referred_by id ≡ false

-- The account `id` is there, referred by `by`.
abbrev pub Referred : String → String → Tables → Type 0
Referred id by t = (row : UserRow) × (Dict.get t.users id ≡ some row) × (row.referred_by ≡ by)

-- A step that keeps both.
abbrev Keeps : Tables → Tables → Type 0
Keeps t t' =
    (NoSelf t → NoSelf t')
    × ((id by : String) → str_eq by "" ≡ false → Referred id by t → Referred id by t')

set_referrer-Keeps :
    (user_id referrer : String) (t : Tables)
    → str_eq referrer user_id ≡ false
    → Keeps t (set_referrer user_id referrer (Dict.get t.users user_id) t).0
unfolding set_referrer
set_referrer-Keeps user_id referrer t other = elim (Option-cases (Dict.get t.users user_id)) [
  | inl n ↦ rw n (λ h. h, λ id by e r. r)
  | inr (row, g) ↦ elim (Bool-cases (str_eq row.referred_by "")) [
    | inr e ↦ rw (g, e) (λ h. h, λ id by x r. r)
    | inl e ↦
        rw (g, e)
          (
            λ h id r. elim (Bool-cases (str_eq user_id id)) [
              | inl m ↦ rw (get-put, m) λ q z. ground (arith, q, other, eq_iff user_id id)
              | inr m ↦ rw (get-put, m) (h id r)
            ],
            λ id by x (r, q, b). elim (Bool-cases (str_eq user_id id)) [
              | inl m ↦ absurd (
                  let same =
                    some-injective _ _
                      (sym g ∙ ap (Dict.get t.users) ((eq_iff user_id id).0 m) ∙ q) in
                  let empty : str_eq row.referred_by "" ≡ false =
                    ap (λ (y : UserRow). str_eq y.referred_by "") same ∙ rw b x in
                  cc)
              | inr m ↦ (r, rw (get-put, m) q, b)
            ],
          )
  ]
]

claim_referral-Keeps :
    (text : Text) (user_id code : String) (t : Tables)
    → Keeps t (claim_referral text user_id code t).0
unfolding claim_referral claim_of
claim_referral-Keeps text user_id code t =
    elim (Bool-cases (str_eq (text.lower (text.trim code)) "")) [
      | inl e ↦ rw e (λ h. h, λ id by x r. r)
      | inr e ↦ elim (Option-cases (find_code (text.lower (text.trim code)) t.users)) [
        | inl n ↦ rw (e, n) (λ h. h, λ id by x r. r)
        | inr (referrer, n) ↦ elim (Bool-cases (str_eq referrer user_id)) [
          | inl s ↦ rw (e, n, s) (λ h. h, λ id by x r. r)
          | inr s ↦ rw (e, n, s) (set_referrer-Keeps user_id referrer t s)
        ]
      ]
    ]

-- Whatever claims are made, nobody comes to be referred by themselves, and an account that was referred
-- by somebody stays referred by that one.
pub claims-keep :
    (text : Text) (cs : List (String × String)) (t : Tables)
    → (NoSelf t → NoSelf (claims text cs t))
      × ((id by : String)
          → str_eq by "" ≡ false
          → Referred id by t
          → Referred id by (claims text cs t))
unfolding claims
claims-keep text [] t = (λ h. h, λ id by x r. r)
claims-keep text ((user_id, code) ∷ rest) t =
    let (one, mine) = claim_referral-Keeps text user_id code t in
    let (all, ours) = claims-keep text rest (claim_referral text user_id code t).0 in
    (λ h. all (one h), λ id by x r. ours id by x (mine id by x r))

-- n + 1, n + 2, and so on, as many as the items.
abbrev pub count_up {ℓ} : {A : Type ℓ} → ℕ → List A → List ℕ
count_up n [] = []
count_up n (x ∷ xs) = (n + 1) ∷ count_up (n + 1) xs

ranks-ranked :
    (n : ℕ) (cs : List Candidate) → map (λ (r : LeaderRow). r.rank) (ranked n cs) ≡ count_up n cs
unfolding ranked
ranks-ranked n [] = refl
ranks-ranked n (c ∷ cs) = ap (λ l. (n + 1) ∷ l) (ranks-ranked (n + 1) cs)

names-ranked :
    (n : ℕ) (cs : List Candidate)
    → map (λ (r : LeaderRow). r.display_name) (ranked n cs)
      ≡ map (λ (c : Candidate). c.display_name) cs
unfolding ranked
names-ranked n [] = refl
names-ranked n (c ∷ cs) = ap (λ l. c.display_name ∷ l) (names-ranked (n + 1) cs)

ahead-IsWeakOrder : IsWeakOrder ahead
unfolding ahead
ahead-IsWeakOrder = record { asym = λ a b h. ground arith; cotrans = λ a b c h g. ground arith }

board_limit-le : (limit : Int64) → limit < modulus → board_limit limit ≤ 200
board_limit-le limit w = ground arith

-- For a 64-bit limit, the leaderboard names, in rank order from 1, the first of the accounts that opted in and have a
-- display name: those that it names and those that it leaves out are together these accounts, none
-- behind one that it is ahead of, and it has at most 200 rows and leaves somebody out only at its limit.
pub leaderboard_lem :
    (sorter : Sorter Candidate) (limit : Int64) (t : Tables)
    → limit < modulus
    → (listed : List Candidate) × (rest : List Candidate) × (map
          (λ (r : LeaderRow). r.display_name)
          (leaderboard sorter limit t)
        ≡ map (λ (c : Candidate). c.display_name) listed)
      × (map (λ (r : LeaderRow). r.rank) (leaderboard sorter limit t) ≡ count_up 0 listed)
      × Perm (listed ++ rest) (select shown (map (candidate t) t.users))
      × IsSorted ahead (listed ++ rest)
      × (length listed ≡ min (board_limit limit) (length (listed ++ rest)))
      × (length listed ≤ 200)
unfolding leaderboard
leaderboard_lem sorter limit t w = (
  queried sorter limit t,
  drop (board_limit limit) all,
  names-ranked 0 (queried sorter limit t),
  ranks-ranked 0 (queried sorter limit t),
  rw whole (sorter.sort-perm ahead own),
  rw whole (sorter.sort-IsSorted ahead ahead-IsWeakOrder own),
  rw whole (length-take (board_limit limit) all),
  omega (arith, length-take (board_limit limit) all, board_limit-le limit w),
)
  where
    own : List Candidate
    own = select shown (map (candidate t) t.users)

    all : List Candidate
    all = sorter.sort ahead own

    whole : take (board_limit limit) all ++ drop (board_limit limit) all ≡ all
    whole = take-append-drop (board_limit limit) all
