-- ===== src/Store/Ledger/Settle.antt =====
-- What a settlement does to earnings that came in after the amount was read.
use shared_compute.Common.{
  ◌≡◌, refl, sym, subst, ◌∙◌, String, true, ◌||◌, Option, none, some, List, str_eq, eq_refl,
  Bool-cases, inl, inr, arith,
}
use shared_compute.Common.Dict
use shared_compute.Common.Dict.{get-put}
use shared_compute.Store.{Mem, EarningEvent, EarningRow, ProviderAccrual, PayoutRecord}
use shared_compute.Store.Ledger.{
  seen, settlement_key, raise_row, accrue, finish_earning, recorded, record_earning, settle,
  record_payout_and_settle,
}
use shared_compute.Store.Ledger.Earnings.{owed}

-- The identity has an accrual.
abbrev HasAccrual : Mem → String → Type 0
HasAccrual m pk = (a : ProviderAccrual) × (Dict.get m.accrued pk ≡ some a)

finish_earning-HasAccrual :
    (ev : EarningEvent) (o : Option (List EarningRow)) (m : Mem) (pk : String)
    → HasAccrual m pk
    → HasAccrual (finish_earning ev o m) pk
unfolding finish_earning accrue
finish_earning-HasAccrual ev (some rows) m pk h = h
finish_earning-HasAccrual ev none m pk (a, h) = elim (Bool-cases (str_eq ev.static_pk "")) [
  | inl e ↦ rw e (a, h)
  | inr e ↦
      rw (e, get-put)
        (elim (Bool-cases (str_eq ev.static_pk pk)) [
          | inl f ↦ rw f (_, refl)
          | inr f ↦ rw f (a, h)
        ])
]

record_earning-HasAccrual :
    (ev : EarningEvent) (m m' : Mem) (pk : String)
    → record_earning ev m ≡ recorded m'
    → HasAccrual m pk
    → HasAccrual m' pk
unfolding record_earning
record_earning-HasAccrual ev m m' pk =
    elim (Bool-cases (str_eq ev.job_id "" || str_eq ev.static_pk "")) [
      | inl e ↦ rw e λ done h. absurd cc
      | inr e ↦ elim (Bool-cases (seen m.earning_events (settlement_key ev))) [
        | inl f ↦ rw (e, f) λ done h. let same : m ≡ m' = cc in subst (λ t. HasAccrual t pk) same h
        | inr f ↦
            rw (e, f)
              λ done h.
                let n = record m {
                  earning_events = Dict.put m.earning_events (settlement_key ev) tt;
                } in
                let same : finish_earning ev (raise_row ev m.earning_rows) n ≡ m' = cc in
                subst (λ t. HasAccrual t pk) same
                  (finish_earning-HasAccrual ev (raise_row ev m.earning_rows) n pk h)
      ]
    ]

owed-settled :
    (po : PayoutRecord) (m : Mem)
    → str_eq po.state "created" ≡ true
    → HasAccrual m po.static_pk
    → owed (record_payout_and_settle po m).0 po.static_pk ≡ po.remainder_micros
unfolding record_payout_and_settle
owed-settled po m c (a, h) =
    let left : ProviderAccrual = record a { jobs = 0; owed_micros = po.remainder_micros } in
    rw (c, h, settle)
      (ground (arith, eq_refl po.static_pk, get-put m.accrued po.static_pk po.static_pk left))

-- An earning that is recorded after the amount of a payout was read and before the payout, in state
-- "created", is settled for an identity that has an accrual, leaves no trace in what the identity
-- is owed: it is the same afterwards as if the earning had never come in.
pub settle_forgets :
    (po : PayoutRecord) (ev : EarningEvent) (m m' : Mem) (a : ProviderAccrual)
    → str_eq po.state "created" ≡ true
    → Dict.get m.accrued po.static_pk ≡ some a
    → record_earning ev m ≡ recorded m'
    → owed (record_payout_and_settle po m').0 po.static_pk
      ≡ owed (record_payout_and_settle po m).0 po.static_pk
settle_forgets po ev m m' a c h done =
    owed-settled po m' c (record_earning-HasAccrual ev m m' po.static_pk done (a, h))
    ∙ sym (owed-settled po m c (a, h))
