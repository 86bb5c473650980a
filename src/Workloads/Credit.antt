-- ===== src/Workloads/Credit.antt =====
-- What accepting a workload leaves of its key's credit.
use shared_compute.Common.{
  ℕ, ◌%◌, ◌≤◌, ◌<◌, ◌≡◌, ◌⊎◌, refl, String, true, false, Option, none, some, eq_refl, ◌==◌,
  if◌then◌else◌, Bool-cases, Option-cases, inl, inr, arith,
}
use shared_compute.Common.Int64.{Int64, add64, neg64, lt64, half, modulus}
use shared_compute.Store.{Mem}
use shared_compute.Store.Ledger.{credit_balance}
use shared_compute.Marketplace
use shared_compute.Marketplace.{Quote, mark_accepted}
use shared_compute.Runs.Async
use shared_compute.Runs.Execute.Charge.{balance-execute_workload, all_ok}
use shared_compute.Workloads.{
  Offer, Config, AcceptRequest, Api, World, check, run_now, run_locked, accept_checked,
  accept_found, job_of, own_quote, handle_accept_workload,
}
use shared_compute.Workloads.Admission.{own_quote-some, check-none}

add64-neg64-le :
    (b t c : Int64)
    → b < half
    → t < half
    → lt64 b t ≡ false
    → (c ≡ 0) ⊎ (c ≡ t)
    → add64 b (neg64 c) ≤ b
add64-neg64-le b t c hb ht n h = elim h [
  | inl z ↦ rw z (omega arith)
  | inr e ↦ rw e (ground (arith, n, hb, ht))
]

module _ {Content Float : Type 0} (w : World Content Float) (key_id : String)
    (calm : (m : Mem) → credit_balance (w.meanwhile m) key_id ≡ credit_balance m key_id) where
  zero_or :
      (n : Int64) (t : Int64) → ((if n == 0 then 0 else t) ≡ 0) ⊎ ((if n == 0 then 0 else t) ≡ t)
  zero_or n t = elim (Bool-cases (n == 0)) [ inl e ↦ rw e (inl refl) | inr e ↦ rw e (inr refl) ]

  balance-run_now-le :
      (q : Quote Offer) (server : Async.Server Content)
      → credit_balance server.mem key_id < half
      → q.offer.total_micros < half
      → lt64 (credit_balance server.mem key_id) q.offer.total_micros ≡ false
      → credit_balance (run_now w key_id q server).0.mem key_id ≤ credit_balance server.mem key_id
  unfolding run_now
  balance-run_now-le q server hb ht n =
      let before = credit_balance server.mem key_id in
      elim (balance-execute_workload
        (record { server = w.metering; model = q.model; price_mult = w.price_mult }) key_id
        (job_of q) key_id w.chunks (w.meanwhile server.mem)) [
          | inl (bad, none_left, same) ↦ rw (same, calm) (omega arith)
          | inr (o, fine, e, ok, failed, charged, after) ↦ elim (Bool-cases (lt64 0 o.charged)) [
            | inr f ↦ rw (after, eq_refl key_id, f, calm) (omega arith)
            | inl f ↦
                rw (after, eq_refl key_id, f, calm)
                  (add64-neg64-le before q.offer.total_micros o.charged hb ht n
                    (rw charged (zero_or (all_ok w.chunks % modulus) q.offer.total_micros)))
          ]
        ]

  balance-run_locked-le :
      (opts : AcceptRequest) (q : Quote Offer) (r : Marketplace.Store Offer × Option (Quote Offer))
      (s : Api Content)
      → opts.async ≡ false
      → credit_balance s.server.mem key_id < half
      → q.offer.total_micros < half
      → lt64 (credit_balance s.server.mem key_id) q.offer.total_micros ≡ false
      → credit_balance (run_locked w opts key_id q r s).0.server.mem key_id
        ≤ credit_balance s.server.mem key_id
  unfolding run_locked
  balance-run_locked-le opts q (quotes, none) s sync hb ht n = omega arith
  balance-run_locked-le opts q (quotes, some p) s sync hb ht n =
      rw sync (balance-run_now-le q s.server hb ht n)

  -- With billing enforced, a request to run a workload at once never raises its key's credit and never
  -- takes it below zero, given that the credit and the price of the quote are not negative and that
  -- other requests leave this key's credit alone until it has been debited.
  pub balance-accept_workload-le :
      (cfg : Config) (opts : AcceptRequest) (id : String) (now later : ℕ) (s : Api Content)
      → cfg.billing_enforce ≡ true
      → opts.async ≡ false
      → credit_balance s.server.mem key_id < half
      → ((q : Quote Offer) → Marketplace.get id now s.quotes ≡ some q → q.offer.total_micros < half)
      → credit_balance (handle_accept_workload cfg w opts id key_id now later s).0.server.mem key_id
        ≤ credit_balance s.server.mem key_id
  unfolding handle_accept_workload accept_found accept_checked
  balance-accept_workload-le cfg opts id now later s enforced sync hb ht =
      let found = Marketplace.get id now s.quotes in
      elim (Option-cases (own_quote found key_id)) [
        | inl n ↦ rw n (omega arith)
        | inr (q, e) ↦ elim (Option-cases (check cfg w opts key_id q s.server)) [
          | inr ((status, code), f) ↦ rw (e, f) (omega arith)
          | inl ok ↦
              let (stored, owner) = own_quote-some found key_id q e in
              let admitted = check-none cfg w opts id key_id now q s stored owner ok in
              let same : some admitted.quote ≡ some q = cc (admitted.found, stored) in
              let afford : lt64 (credit_balance s.server.mem key_id) q.offer.total_micros ≡ false =
                ground (arith, same, admitted.credit, enforced) in
              rw (e, ok)
                (balance-run_locked-le opts q (mark_accepted id later s.quotes) s sync hb
                  (ht q stored) afford)
        ]
      ]
