-- ===== src/Payouts/Conserve.antt =====
-- The payout run neither loses nor invents money.
use shared_compute.Common.{
  ℕ, ◌+◌, ◌*◌, ◌<◌, ◌≡◌, refl, ap, ◌∙◌, String, Bool, false, some, List, [], ◌∷◌, ◌++◌, All, str_eq,
  eq_iff, if◌then◌else◌, Bool-cases, Option-cases, inl, inr, arith,
}
use shared_compute.Common.Int64.{Int64, sub64, mul64, div64, lt64, half}
use shared_compute.Common.Dict
use shared_compute.Common.Dict.{Dict, get-put}
use shared_compute.Store.{Mem, ProviderAccrual, PayoutAccount}
use shared_compute.Store.Ledger.{
  or_new, accrued_by_provider, get_payout_account, record_payout_and_settle,
}
use shared_compute.Store.Ledger.Earnings.{owed}
use shared_compute.Payouts.{
  Line, Transfer, Reply, made, refused, Run, settle_transfer, pay_cents, pay_account, pay_row,
  pay_rows, payouts_run,
}

-- The cents that the transfers sent to an identity.
abbrev pub sent : String → List Transfer → ℕ
sent pk [] = 0
sent pk (t ∷ ts) = let rest = sent pk ts in if str_eq t.static_pk pk then t.cents + rest else rest

sent-append :
    (pk : String) (ts : List Transfer) (t : Transfer)
    → sent pk (ts ++ t ∷ []) ≡ sent pk ts + (if str_eq t.static_pk pk then t.cents else 0)
sent-append pk [] t = ground arith
sent-append pk (u ∷ ts) t = ground (arith, sent-append pk ts t)

-- What an identity has: what it is owed and, in micros, what it was sent.
abbrev pub worth : String → Run → ℕ
worth pk r = owed r.mem pk + 10_000 * sent pk r.transfers

-- A step on row `a` that keeps every identity's worth and every other identity's accrual.
record Keeps (a : ProviderAccrual) (r s : Run) : Type 0 where
  same_worth : (pk : String) → worth pk s ≡ worth pk r
  others :
      (pk : String)
      → str_eq a.static_pk pk ≡ false
      → Dict.get s.mem.accrued pk ≡ Dict.get r.mem.accrued pk

-- The remainder is what whole cents leave of an amount.
split :
    (n : Int64) → n < half → sub64 n (mul64 (div64 n 10_000) 10_000) + 10_000 * div64 n 10_000 ≡ n
split n h = ground arith

unchanged :
    (a : ProviderAccrual) (r s : Run)
    → s.mem.accrued ≡ r.mem.accrued
    → s.transfers ≡ r.transfers
    → Keeps a r s
unchanged a r s e f = record {
  same_worth = λ pk. cc;
  others = λ pk n. ap (λ (d : Dict ProviderAccrual). Dict.get d pk) e;
}

module _ (stripe : List Transfer → Transfer → Reply) (meanwhile : List Transfer → Mem → Mem)
    (commit : Bool) (min_micros : Int64) where
  made-Keeps :
      (a : ProviderAccrual) (pa : PayoutAccount) (res : Line) (id : String) (r : Run)
      → Dict.get r.mem.accrued a.static_pk ≡ some a
      → a.owed_micros < half
      → Keeps a r (
          settle_transfer stripe meanwhile commit min_micros a pa
            (div64 a.owed_micros 10_000)
            res
            (made id)
            r)
  unfolding settle_transfer record_payout_and_settle
  made-Keeps a pa res id r row small =
      let cents = div64 a.owed_micros 10_000 in
      let left = sub64 a.owed_micros (mul64 cents 10_000) in
      let t : Transfer = record {
        static_pk = a.static_pk;
        account = pa.stripe_account;
        cents = cents;
      } in
      let a' : ProviderAccrual = record a { jobs = 0; owed_micros = left } in
      record {
        same_worth = λ pk.
            rw (row, sent-append)
              (ground (
                arith,
                split a.owed_micros small,
                row,
                eq_iff a.static_pk pk,
                get-put r.mem.accrued a.static_pk pk a',
                ap (Dict.get r.mem.accrued) {x = a.static_pk} {y = pk},
              ));
        others = λ pk n. rw (row, get-put, n) refl;
      }

  refused-Keeps :
      (a : ProviderAccrual) (pa : PayoutAccount) (cents : Int64) (res : Line) (why : String)
      (r : Run)
      → Keeps a r
          (settle_transfer stripe meanwhile commit min_micros a pa cents res (refused why) r)
  unfolding settle_transfer record_payout_and_settle
  refused-Keeps a pa cents res why r = unchanged a r _ refl refl

  settle-Keeps :
      (a : ProviderAccrual) (pa : PayoutAccount) (res : Line) (reply : Reply) (r : Run)
      → Dict.get r.mem.accrued a.static_pk ≡ some a
      → a.owed_micros < half
      → Keeps a r (
          settle_transfer stripe meanwhile commit min_micros a pa
            (div64 a.owed_micros 10_000)
            res
            reply
            r)
  settle-Keeps a pa res (made id) r row small = made-Keeps a pa res id r row small
  settle-Keeps a pa res (refused why) r row small =
      refused-Keeps a pa (div64 a.owed_micros 10_000) res why r

  -- What changes the store between two steps leaves the accruals.
  Keeps-after :
      (a : ProviderAccrual) (m : Mem) (r s : Run)
      → m.accrued ≡ r.mem.accrued
      → Keeps a (record r { mem = m }) s
      → Keeps a r s
  Keeps-after a m r s e k = record {
    same_worth = λ pk.
        k.same_worth pk
        ∙ ap
            (λ (d : Dict ProviderAccrual).
              (or_new pk (Dict.get d pk)).owed_micros + 10_000 * sent pk r.transfers)
            e;
    others = λ pk n. k.others pk n ∙ ap (λ (d : Dict ProviderAccrual). Dict.get d pk) e;
  }

  pay_cents-Keeps :
      ((ts : List Transfer) (m : Mem) → (meanwhile ts m).accrued ≡ m.accrued)
      → (a : ProviderAccrual) (pa : PayoutAccount) (res : Line) (r : Run)
      → Dict.get r.mem.accrued a.static_pk ≡ some a
      → a.owed_micros < half
      → Keeps a r
          (pay_cents stripe meanwhile commit min_micros a pa (div64 a.owed_micros 10_000) res r)
  unfolding pay_cents
  pay_cents-Keeps calm a pa res r row small =
      elim (Bool-cases (lt64 (div64 a.owed_micros 10_000) 1)) [
        | inl e ↦ rw e (unchanged a r _ refl refl)
        | inr e ↦ elim (Bool-cases commit) [
          | inl c ↦
              let m = meanwhile r.transfers r.mem in
              let quiet = calm r.transfers r.mem in
              rw (e, c)
                (Keeps-after a m r _ quiet (
                  settle-Keeps a pa _ _ (record r { mem = m })
                    (ap (λ (d : Dict ProviderAccrual). Dict.get d a.static_pk) quiet ∙ row) small))
          | inr c ↦ rw (e, c) (unchanged a r _ refl refl)
        ]
      ]

  pay_row-Keeps :
      ((ts : List Transfer) (m : Mem) → (meanwhile ts m).accrued ≡ m.accrued)
      → (a : ProviderAccrual) (r : Run) → Dict.get r.mem.accrued a.static_pk ≡ some a
      → a.owed_micros < half
      → Keeps a r (pay_row stripe meanwhile commit min_micros a r)
  unfolding pay_row
  pay_row-Keeps calm a r row small = elim (Bool-cases (lt64 a.owed_micros min_micros)) [
    | inl e ↦ rw e (unchanged a r _ refl refl)
    | inr e ↦ elim (Option-cases (get_payout_account r.mem a.static_pk)) [
      | inl g ↦ rw (e, g, pay_account) (unchanged a r _ refl refl)
      | inr (pa, g) ↦ elim (Bool-cases (str_eq pa.status "enabled")) [
        | inl s ↦ rw (e, g, pay_account, s) (pay_cents-Keeps calm a pa _ r row small)
        | inr s ↦ rw (e, g, pay_account, s) (unchanged a r _ refl refl)
      ]
    ]
  ]

  -- Every row stands in the map under its identity, each identity once.
  abbrev pub IsRows : Dict ProviderAccrual → List ProviderAccrual → Type 0
  IsRows accrued [] = Unit
  IsRows accrued (a ∷ rows) =
      (Dict.get accrued a.static_pk ≡ some a)
      × (a.owed_micros < half)
      × All (λ b. str_eq a.static_pk b.static_pk ≡ false) rows
      × IsRows accrued rows

  IsRows-Keeps :
      (a : ProviderAccrual) (r s : Run) (rows : List ProviderAccrual)
      → Keeps a r s
      → All (λ b. str_eq a.static_pk b.static_pk ≡ false) rows
      → IsRows r.mem.accrued rows
      → IsRows s.mem.accrued rows
  IsRows-Keeps a r s [] k d h = tt
  IsRows-Keeps a r s (b ∷ rows) k d h =
      (k.others b.static_pk d.0 ∙ h.0, h.1, h.2, IsRows-Keeps a r s rows k d.1 h.3)

  worth-pay_rows :
      ((ts : List Transfer) (m : Mem) → (meanwhile ts m).accrued ≡ m.accrued)
      → (rows : List ProviderAccrual) (r : Run) → IsRows r.mem.accrued rows
      → (pk : String) → worth pk (pay_rows stripe meanwhile commit min_micros rows r) ≡ worth pk r
  unfolding pay_rows
  worth-pay_rows calm [] r h pk = refl
  worth-pay_rows calm (a ∷ rows) r h pk =
      let k = pay_row-Keeps calm a r h.0 h.1 in
      worth-pay_rows calm rows (pay_row stripe meanwhile commit min_micros a r)
        (IsRows-Keeps a r (pay_row stripe meanwhile commit min_micros a r) rows k h.2 h.3) pk
      ∙ k.same_worth pk

  -- As long as no other request changes what is owed while a transfer is under way, a payout run
  -- conserves every identity's money, whatever Stripe answers to each transfer and whatever else other
  -- requests change: what the identity is owed afterwards and what the transfers sent to it add up to
  -- what it was owed before, where the rows of AccruedByProvider stand in the map under their identities
  -- and are below 2 ^ 63.
  pub owed-payouts_run :
      (m : Mem) (pk : String)
      → ((ts : List Transfer) (m' : Mem) → (meanwhile ts m').accrued ≡ m'.accrued)
      → IsRows m.accrued (accrued_by_provider m)
      → let r = payouts_run stripe meanwhile commit min_micros m in
        owed r.mem pk + 10_000 * sent pk r.transfers ≡ owed m pk
  unfolding payouts_run
  owed-payouts_run m pk calm h =
      worth-pay_rows calm (accrued_by_provider m)
        (record { mem = m; results = []; total_micros = 0; transfers = [] }) h pk
      ∙ omega arith
