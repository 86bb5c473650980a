-- ===== src/Workloads/Admission.antt =====
-- What a request to accept a workload has to pass.
use shared_compute.Common.{
  passes, ℕ, ◌≡◌, ◌⊎◌, refl, String, Bool, true, false, ltb, if◌then◌else◌, not, ◌&&◌, Option, none,
  some, List, All, str_eq, eq_iff, Bool-cases, Option-cases, inl, inr, arith,
}
use shared_compute.Common.Int64.{lt64, le64}
use shared_compute.Store.Ledger.{credit_balance}
use shared_compute.Council
use shared_compute.Marketplace
use shared_compute.Marketplace.{Quote, mark_accepted}
use shared_compute.Marketplace.Quotes.{Op, creates_id, run, accepted_once}
use shared_compute.Runs.{inflight_for}
use shared_compute.Runs.Async
use shared_compute.Runs.Execute.{Outcome}
use shared_compute.Workloads.{
  reply_of, Offer, Config, AcceptRequest, Api, Reply, refused, started, served, relay_failed,
  runnable, max_async_runs_per_key, blocked_by, own_quote, World, check, run_now, run_later,
  run_locked, accept_checked, accept_found, handle_accept_workload,
}

abbrev pub is_refused : {Content : Type 0} → Reply Content → Bool
is_refused (refused status code) = true
is_refused (started row secret) = false
is_refused (served out) = false
is_refused relay_failed = false

-- The quote that a request names passes every check.
pub record IsAdmitted {Content Float : Type 0} (cfg : Config) (w : World Content Float)
    (opts : AcceptRequest) (id key_id : String) (now : ℕ) (s : Api Content) : Type 0 where
  pub quote : Quote Offer
  pub found : Marketplace.get id now s.quotes ≡ some quote
  pub owner : quote.key_id ≡ key_id
  pub fresh : quote.accepted ≡ false
  pub items : ltb 0 quote.offer.items ≡ true
  pub council :
      (o : Council.Outcome) → quote.offer.council ≡ some o → str_eq o.decision "BLOCK" ≡ false
  pub credit :
      (cfg.billing_enforce && lt64 (credit_balance s.server.mem key_id) quote.offer.total_micros)
      ≡ false
  pub webhook :
      (not (str_eq opts.webhook_url "") && not (w.webhook_allowed opts.webhook_url)) ≡ false
  pub room :
      (opts.async
        && le64
            (if lt64 0 cfg.max_async_runs then cfg.max_async_runs else 4)
            (inflight_for key_id s.server.runs))
      ≡ false

pub reply_of-ran :
    {Content : Type 0} (out : Option (Outcome Content)) → is_refused (reply_of out) ≡ false
reply_of-ran none = refl
reply_of-ran (some o) = refl

pub own_quote-some :
    (found : Option (Quote Offer)) (key_id : String) (q : Quote Offer)
    → own_quote found key_id ≡ some q
    → (found ≡ some q) × (q.key_id ≡ key_id)
own_quote-some none key_id q h = absurd (cc h)
own_quote-some (some p) key_id q h = elim (Bool-cases (str_eq p.key_id key_id)) [
  | inl e ↦ ground (arith, h, e, (eq_iff p.key_id key_id).0 e)
  | inr e ↦ absurd (cc (h, e))
]

unnot : (b : Bool) → not b ≡ false → b ≡ true
unnot true h = refl
unnot false h = absurd (cc h)

unblocked :
    (council : Option Council.Outcome)
    → blocked_by council ≡ false
    → (o : Council.Outcome) → council ≡ some o
    → str_eq o.decision "BLOCK" ≡ false
unfolding Council.acceptable
unblocked none h o e = absurd (cc e)
unblocked (some p) h o e = ground (arith, h, e)

module _ {Content Float : Type 0} where
  pub check-none :
      (cfg : Config) (w : World Content Float) (opts : AcceptRequest) (id key_id : String) (now : ℕ)
      (q : Quote Offer) (s : Api Content)
      → Marketplace.get id now s.quotes ≡ some q
      → q.key_id ≡ key_id
      → check cfg w opts key_id q s.server ≡ none
      → IsAdmitted cfg w opts id key_id now s
  unfolding check max_async_runs_per_key
  check-none cfg w opts id key_id now q s found owner h =
      let (fresh, h1) = passes q.accepted _ _ h in
      let (items, h2) = passes (not (runnable q.offer)) _ _ h1 in
      let (council, h3) = passes (blocked_by q.offer.council) _ _ h2 in
      let (credit, h4) = passes _ _ _ h3 in
      let (webhook, h5) = passes _ _ _ h4 in
      record {
        quote = q;
        found = found;
        owner = owner;
        fresh = fresh;
        items = unnot (runnable q.offer) items;
        council = unblocked q.offer.council council;
        credit = credit;
        webhook = webhook;
        room = (passes _ _ _ h5).0;
      }

  run_locked-none :
      (w : World Content Float) (opts : AcceptRequest) (key_id : String) (q : Quote Offer)
      (r : Marketplace.Store Offer × Option (Quote Offer)) (s : Api Content)
      → r.1 ≡ none
      → run_locked w opts key_id q r s ≡ (s, refused 409 "already_accepted")
  unfolding run_locked
  run_locked-none w opts key_id q (quotes, none) s h = refl
  run_locked-none w opts key_id q (quotes, some p) s h = absurd (cc h)

  run_locked-quotes :
      (w : World Content Float) (opts : AcceptRequest) (key_id : String) (q p : Quote Offer)
      (r : Marketplace.Store Offer × Option (Quote Offer)) (s : Api Content)
      → r.1 ≡ some p
      → (run_locked w opts key_id q r s).0.quotes ≡ r.0
  unfolding run_locked
  run_locked-quotes w opts key_id q p (quotes, none) s h = absurd (cc h)
  run_locked-quotes w opts key_id q p (quotes, some x) s h = refl

  -- How an accept ends: refused with nothing changed, or run for a quote that passed every check and
  -- that the store has locked.
  abbrev pub IsDecided :
      Config
      → World Content Float
      → AcceptRequest
      → String
      → String
      → ℕ
      → ℕ
      → Api Content
      → Api Content × Reply Content
      → Type 0
  IsDecided cfg w opts id key_id now later s (s', reply) =
      ((s' ≡ s) × (is_refused reply ≡ true))
      ⊎ (IsAdmitted cfg w opts id key_id now s
          × ((p : Quote Offer) × (mark_accepted id later s.quotes).1 ≡ some p)
          × (s'.quotes ≡ (mark_accepted id later s.quotes).0)
          × (is_refused reply ≡ false))

  run_locked-ran :
      (w : World Content Float) (opts : AcceptRequest) (key_id : String) (q p : Quote Offer)
      (r : Marketplace.Store Offer × Option (Quote Offer)) (s : Api Content)
      → r.1 ≡ some p
      → is_refused (run_locked w opts key_id q r s).1 ≡ false
  unfolding run_locked run_now run_later
  run_locked-ran w opts key_id q p (quotes, none) s h = absurd (cc h)
  run_locked-ran w opts key_id q p (quotes, some x) s h = elim (Bool-cases opts.async) [
    | inl e ↦ rw e refl
    | inr e ↦ rw e (reply_of-ran _)
  ]

  run_locked-IsDecided :
      (cfg : Config) (w : World Content Float) (opts : AcceptRequest) (id key_id : String)
      (now later : ℕ) (q : Quote Offer) (s : Api Content)
      → IsAdmitted cfg w opts id key_id now s
      → IsDecided cfg w opts id key_id now later s
          (run_locked w opts key_id q (mark_accepted id later s.quotes) s)
  run_locked-IsDecided cfg w opts id key_id now later q s admitted =
      let r = mark_accepted id later s.quotes in
      elim (Option-cases r.1) [
        | inl e ↦ rw (run_locked-none w opts key_id q r s e) (inl (refl, refl))
        | inr (p, e) ↦ inr (
          admitted,
          (p, e),
          run_locked-quotes w opts key_id q p r s e,
          run_locked-ran w opts key_id q p r s e,
        )
      ]

  -- A request to accept a workload is refused, and then the quotes, the store and the runs are as they
  -- were; or it is run, and then the store locks the quote, and the quote lives, belongs to the key, was
  -- not accepted, has items, is not blocked by the Council, costs no more than the key's credit where
  -- billing is enforced, and the webhook is allowed and the key has room for a run where one is asked for.
  pub accept_workload-IsDecided :
      (cfg : Config) (w : World Content Float) (opts : AcceptRequest) (id key_id : String)
      (now later : ℕ) (s : Api Content)
      → IsDecided cfg w opts id key_id now later s
          (handle_accept_workload cfg w opts id key_id now later s)
  unfolding handle_accept_workload accept_found accept_checked
  accept_workload-IsDecided cfg w opts id key_id now later s =
      let found = Marketplace.get id now s.quotes in
      elim (Option-cases (own_quote found key_id)) [
        | inl n ↦ rw n (inl (refl, refl))
        | inr (q, e) ↦ elim (Option-cases (check cfg w opts key_id q s.server)) [
          | inr ((status, code), f) ↦ rw (e, f) (inl (refl, refl))
          | inl ok ↦
              let (stored, owner) = own_quote-some found key_id q e in
              rw (e, ok)
                (run_locked-IsDecided cfg w opts id key_id now later q s
                  (check-none cfg w opts id key_id now q s stored owner ok))
        ]
      ]

  -- A quote that the store does not lock is refused with nothing changed.
  unmarked-refused :
      (cfg : Config) (w : World Content Float) (opts : AcceptRequest) (id key_id : String)
      (now later : ℕ) (s : Api Content)
      → (mark_accepted id later s.quotes).1 ≡ none
      → let r = handle_accept_workload cfg w opts id key_id now later s in
        (r.0 ≡ s) × (is_refused r.1 ≡ true)
  unmarked-refused cfg w opts id key_id now later s h =
      elim (accept_workload-IsDecided cfg w opts id key_id now later s) [
        | inl same ↦ same
        | inr (admitted, (p, e), kept, ran) ↦ absurd (cc (e, h))
      ]

  -- Once a request to accept a workload is not refused, every later request to accept the same id is
  -- refused and changes neither the quotes nor the store nor the runs, whoever sends it and whatever the
  -- store and the runs have become, after any calls on the quotes that do not create the id anew.
  pub accept_workload_once :
      (cfg cfg' : Config) (w w' : World Content Float) (opts opts' : AcceptRequest)
      (id key_id key_id' : String) (now later now' later' : ℕ) (s : Api Content)
      (os : List (Op Offer)) (server' : Async.Server Content)
      → is_refused (handle_accept_workload cfg w opts id key_id now later s).1 ≡ false
      → All (λ o. creates_id id o ≡ false) os
      → let s' : Api Content = record {
        quotes = run (handle_accept_workload cfg w opts id key_id now later s).0.quotes os;
        server = server';
      } in
        let r = handle_accept_workload cfg' w' opts' id key_id' now' later' s' in
        (r.0 ≡ s') × (is_refused r.1 ≡ true)
  accept_workload_once cfg cfg' w w' opts opts' id key_id key_id' now later now' later' s os server'
        h n =
      elim (accept_workload-IsDecided cfg w opts id key_id now later s) [
        | inl (same, gone) ↦ absurd (cc (gone, h))
        | inr (admitted, (p, e), kept, ran) ↦
            unmarked-refused cfg' w' opts' id key_id' now' later'
              (record {
                quotes = run (handle_accept_workload cfg w opts id key_id now later s).0.quotes os;
                server = server';
              })
              (rw kept (accepted_once id later later' s.quotes p os e n))
      ]
