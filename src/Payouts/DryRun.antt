-- ===== src/Payouts/DryRun.antt =====
-- A payout run without ?commit=1 moves nothing.
use shared_compute.Common.{
  ◌≡◌, refl, ◌∙◌, false, List, [], ◌∷◌, str_eq, Bool-cases, Option-cases, inl, inr,
}
use shared_compute.Common.Int64.{Int64, div64, lt64}
use shared_compute.Store.{Mem, ProviderAccrual}
use shared_compute.Store.Ledger.{accrued_by_provider, get_payout_account}
use shared_compute.Payouts.{
  Transfer, Reply, Run, pay_cents, pay_account, pay_row, pay_rows, payouts_run,
}

module _ (stripe : List Transfer → Transfer → Reply) (meanwhile : List Transfer → Mem → Mem)
    (min_micros : Int64) where
  abbrev Still : Run → Run → Type 0
  Still r s = (s.mem ≡ r.mem) × (s.transfers ≡ r.transfers)

  pay_row-Still :
      (a : ProviderAccrual) (r : Run) → Still r (pay_row stripe meanwhile false min_micros a r)
  unfolding pay_row pay_cents
  pay_row-Still a r = elim (Bool-cases (lt64 a.owed_micros min_micros)) [
    | inl e ↦ rw e (refl, refl)
    | inr e ↦ elim (Option-cases (get_payout_account r.mem a.static_pk)) [
      | inl g ↦ rw (e, g, pay_account) (refl, refl)
      | inr (pa, g) ↦ elim (Bool-cases (str_eq pa.status "enabled")) [
        | inl s ↦ elim (Bool-cases (lt64 (div64 a.owed_micros 10_000) 1)) [
          | inl f ↦ rw (e, g, pay_account, s, f) (refl, refl)
          | inr f ↦ rw (e, g, pay_account, s, f) (refl, refl)
        ]
        | inr s ↦ rw (e, g, pay_account, s) (refl, refl)
      ]
    ]
  ]

  pay_rows-Still :
      (rows : List ProviderAccrual) (r : Run)
      → Still r (pay_rows stripe meanwhile false min_micros rows r)
  unfolding pay_rows
  pay_rows-Still [] r = (refl, refl)
  pay_rows-Still (a ∷ rows) r =
      let here = pay_row-Still a r in
      let rest = pay_rows-Still rows (pay_row stripe meanwhile false min_micros a r) in
      (rest.0 ∙ here.0, rest.1 ∙ here.1)

  -- A dry run leaves the store as it was and makes no transfer.
  pub payouts_run_dry :
      (m : Mem)
      → let r = payouts_run stripe meanwhile false min_micros m in (r.mem ≡ m) × (r.transfers ≡ [])
  unfolding payouts_run
  payouts_run_dry m =
      pay_rows-Still (accrued_by_provider m)
        (record { mem = m; results = []; total_micros = 0; transfers = [] })
