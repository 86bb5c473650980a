-- ===== src/Store/Ledger/Earnings.antt =====
-- Earnings: one accrual for a job and an identity, the totals of the rows, and what is owed.
use shared_compute.Common.{
  ◌≡◌, ◌≢◌, ◌⊎◌, ap, ◌∙◌, refl, String, Bool, true, false, not, ◌&&◌, ◌||◌, Option, none, some,
  List, [], ◌∷◌, ◌++◌, str_eq, eq_iff, eq_refl, if◌then◌else◌, Bool-cases, Option-cases, inl, inr,
  arith, ◌<◌,
}
use shared_compute.Common.Int64.{Int64, add64, modulus}
use shared_compute.Common.Dict
use shared_compute.Common.Dict.{get-put}
use shared_compute.Store.{Mem, EarningEvent, EarningRow, ProviderAccrual}
use shared_compute.Store.Ledger.{
  seen, settlement_key, raise_row, accrue, or_new, finish_earning, recorded, record_earning,
}

-- What the rows say that `provider` has earned, modulo 2 ^ 64.
abbrev pub earned : String → List EarningRow → Int64
earned provider [] = 0
earned provider (r ∷ rs) =
    let rest = earned provider rs in
    if str_eq r.provider_id provider then add64 r.provider_micros rest else rest

abbrev pub has_row : String → List EarningRow → Bool
has_row provider [] = false
has_row provider (r ∷ rs) = str_eq r.provider_id provider || has_row provider rs

-- What is owed to an identity.
abbrev pub owed : Mem → String → Int64
owed m pk = (or_new pk (Dict.get m.accrued pk)).owed_micros

raise_row-none :
    (ev : EarningEvent) (rs : List EarningRow)
    → raise_row ev rs ≡ none
    → has_row ev.provider_id rs ≡ false
unfolding raise_row
raise_row-none ev [] h = refl
raise_row-none ev (r ∷ rs) h = ground (arith, raise_row-none ev rs)

earned-lt : (p : String) (rs : List EarningRow) → earned p rs < modulus
earned-lt p [] = omega arith
earned-lt p (r ∷ rs) = ground (arith, earned-lt p rs)

-- The row that the loop raises is its provider's first, and is there exactly if the provider has one.
raise_row-some :
    (ev : EarningEvent) (rs rs' : List EarningRow)
    → raise_row ev rs ≡ some rs'
    → has_row ev.provider_id rs ≡ true
unfolding raise_row
raise_row-some ev [] rs' h = cc
raise_row-some ev (r ∷ rs) rs' h = elim (Bool-cases (str_eq r.provider_id ev.provider_id)) [
  | inl e ↦ rw e refl
  | inr e ↦ elim (Option-cases (raise_row ev rs)) [
    | inl n ↦ ground (arith, e, n)
    | inr (t, g) ↦ rw e (raise_row-some ev rs t g)
  ]
]

earned-raise_row :
    (ev : EarningEvent) (rs rs' : List EarningRow) (p : String)
    → raise_row ev rs ≡ some rs'
    → earned p rs'
      ≡ (if str_eq ev.provider_id p then add64 (earned p rs) ev.provider_micros else earned p rs)
unfolding raise_row
earned-raise_row ev [] rs' p h = cc
earned-raise_row ev (r ∷ rs) rs' p h = elim (Bool-cases (str_eq r.provider_id ev.provider_id)) [
  | inl e ↦ ground (
    arith,
    e,
    eq_iff r.provider_id ev.provider_id,
    eq_iff r.provider_id p,
    eq_iff ev.provider_id p,
    earned-lt p rs,
  )
  | inr e ↦ elim (Option-cases (raise_row ev rs)) [
    | inl n ↦ ground (arith, e, n)
    | inr (t, g) ↦ ground (arith, e, g, earned-raise_row ev rs t p g)
  ]
]

-- The share of `p` in a row.
abbrev share : String → EarningRow → Int64
share p r = if str_eq r.provider_id p then r.provider_micros else 0

earned-append :
    (p : String) (rs : List EarningRow) (r : EarningRow)
    → earned p (rs ++ r ∷ []) ≡ add64 (earned p rs) (share p r)
earned-append p [] r = elim (Bool-cases (str_eq r.provider_id p)) [
  | inl e ↦ rw e (omega arith)
  | inr e ↦ rw e (omega arith)
]
earned-append p (q ∷ rs) r = elim (Bool-cases (str_eq q.provider_id p)) [
  | inl e ↦ rw e (omega (arith, earned-append p rs r))
  | inr e ↦ rw e (earned-append p rs r)
]

-- The event was settled before: its job and identity are in the set.
abbrev pub settled : Mem → EarningEvent → Bool
settled m ev = seen m.earning_events (settlement_key ev)

-- What `accrue` writes for the event's identity.
abbrev accrual : EarningEvent → Option ProviderAccrual → ProviderAccrual
accrual ev o =
    let a = or_new ev.static_pk o in
    record a { jobs = add64 a.jobs 1; owed_micros = add64 a.owed_micros ev.provider_micros }

-- The store with the event's key in the set.
abbrev with_key : EarningEvent → Mem → Mem
with_key ev m = record m { earning_events = Dict.put m.earning_events (settlement_key ev) tt }

module _ (ev : EarningEvent) (m m' : Mem) (done : record_earning ev m ≡ recorded m') where
  done_cases :
      ((settled m ev ≡ true) × (m' ≡ m))
      ⊎ ((settled m ev ≡ false)
          × (m' ≡ finish_earning ev (raise_row ev m.earning_rows) (with_key ev m)))
  unfolding record_earning
  done_cases = ground (arith, done)

  identified : (str_eq ev.job_id "" ≡ false) × (str_eq ev.static_pk "" ≡ false)
  unfolding record_earning
  identified = ground (arith, done)

  earned-fresh :
      (p : String) (o : Option (List EarningRow))
      → raise_row ev m.earning_rows ≡ o
      → earned p (finish_earning ev o (with_key ev m)).earning_rows ≡ (
          if str_eq ev.provider_id p
          then add64 (earned p m.earning_rows) ev.provider_micros
          else earned p m.earning_rows)
  unfolding finish_earning
  earned-fresh p none e =
      earned-append p m.earning_rows _ ∙ elim (Bool-cases (str_eq ev.provider_id p)) [
        | inl f ↦ rw f refl
        | inr f ↦ rw f (omega (arith, earned-lt p m.earning_rows))
      ]
  earned-fresh p (some rs) e = earned-raise_row ev m.earning_rows rs p e

  -- A recorded event adds its provider share to what its provider's rows say, unless its job and
  -- identity were settled before, and changes no other provider's.
  pub earned-record_earning :
      (p : String)
      → earned p m'.earning_rows ≡ (
          if str_eq ev.provider_id p && not (settled m ev)
          then add64 (earned p m.earning_rows) ev.provider_micros
          else earned p m.earning_rows)
  earned-record_earning p = elim done_cases [
    | inl (old, e) ↦ ground (arith, old, ap (λ (t : Mem). earned p t.earning_rows) e)
    | inr (fresh, e) ↦ ground (
      arith,
      fresh,
      ap (λ (t : Mem). earned p t.earning_rows) e,
      earned-fresh p (raise_row ev m.earning_rows) refl,
    )
  ]

  owed-fresh :
      (pk : String) (o : Option (List EarningRow))
      → raise_row ev m.earning_rows ≡ o
      → owed (finish_earning ev o (with_key ev m)) pk ≡ (
          if not (has_row ev.provider_id m.earning_rows) && str_eq ev.static_pk pk
          then add64 (owed m pk) ev.provider_micros
          else owed m pk)
  unfolding finish_earning accrue
  owed-fresh pk none e = ground (
    arith,
    raise_row-none ev m.earning_rows e,
    identified.1,
    eq_iff ev.static_pk pk,
    get-put m.accrued ev.static_pk pk (accrual ev (Dict.get m.accrued ev.static_pk)),
  )
  owed-fresh pk (some rs) e = rw (raise_row-some ev m.earning_rows rs e) refl

  -- What is owed to an identity rises by the event's provider share only if the event is new, is the
  -- identity's own, and its provider has no row yet; in every other case it stays.
  pub owed-record_earning :
      (pk : String)
      → owed m' pk ≡ (
          if not (settled m ev)
            && (not (has_row ev.provider_id m.earning_rows) && str_eq ev.static_pk pk)
          then add64 (owed m pk) ev.provider_micros
          else owed m pk)
  owed-record_earning pk = elim done_cases [
    | inl (old, e) ↦ ground (arith, old, ap (λ (t : Mem). owed t pk) e)
    | inr (fresh, e) ↦ ground (
      arith,
      fresh,
      ap (λ (t : Mem). owed t pk) e,
      owed-fresh pk (raise_row ev m.earning_rows) refl,
    )
  ]

  events-finish_earning :
      (o : Option (List EarningRow)) (n : Mem)
      → (finish_earning ev o n).earning_events ≡ n.earning_events
  unfolding finish_earning
  events-finish_earning none n = refl
  events-finish_earning (some rs) n = refl

  settled_after : settled m' ev ≡ true
  settled_after = elim done_cases [
    | inl (old, e) ↦ rw e old
    | inr (fresh, e) ↦
        rw (e, events-finish_earning)
          (ground (
            arith,
            get-put m.earning_events (settlement_key ev) (settlement_key ev) tt,
            eq_refl (settlement_key ev),
          ))
  ]

  -- After an event was recorded, a second event for the same job and identity changes nothing,
  -- whatever else it says.
  pub record_earning_twice :
      (again : EarningEvent)
      → again.job_id ≡ ev.job_id
      → again.static_pk ≡ ev.static_pk
      → record_earning again m' ≡ recorded m'
  unfolding record_earning settlement_key
  record_earning_twice again j k = rw (j, k, identified.0, identified.1, settled_after) refl

-- Where the provider has a row already, what the identity of a new event is owed afterwards misses
-- the event's provider share, if that share is not 0 and both are 64-bit numbers.
pub owed_misses_repeat :
    (ev : EarningEvent) (m m' : Mem)
    → record_earning ev m ≡ recorded m'
    → settled m ev ≡ false
    → has_row ev.provider_id m.earning_rows ≡ true
    → owed m ev.static_pk < modulus
    → 0 < ev.provider_micros
    → ev.provider_micros < modulus
    → owed m' ev.static_pk ≢ add64 (owed m ev.static_pk) ev.provider_micros
owed_misses_repeat ev m m' done fresh row word some_share fits e =
    let stays : owed m' ev.static_pk ≡ owed m ev.static_pk =
      ground (arith, owed-record_earning ev m m' done ev.static_pk) in
    omega arith
