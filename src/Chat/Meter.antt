-- ===== src/Chat/Meter.antt =====
-- What a chat costs its key, and who is served.
use shared_compute.Common.{
  ◌≡◌, refl, ap, sym, ◌∙◌, ◌⊎◌, ◌==◌, String, Bool, true, false, ◌&&◌, ◌||◌, Option, none, some,
  List, str_eq, if◌then◌else◌, Bool-cases, Option-cases, inl, inr,
}
use shared_compute.Common.Int64.{add64, neg64, le64}
use shared_compute.Common.Dict
use shared_compute.Relay.{Result}
use shared_compute.Relay.Dispatch.{ExecError}
use shared_compute.Store.{Mem, EarningEvent}
use shared_compute.Store.Ledger.{
  credit_balance, seen, settlement_key, raise_row, record_earning, finish_earning, or_zero, Credit,
}
use shared_compute.Store.Ledger.Credits.{balance-first_debit}
use shared_compute.Store.Rows.{record_usage}
use shared_compute.Chat.{
  Server, ChatRequest, RelayRequest, Executed, served, broken, Answer, refused, silent, completion,
  earned_or, written, job_quote, record_job, meter, blocking_chat, check, check_model, run_checked,
  handle_chat_completions, resolve_model, is_empty, messages_too_big, map_relay_err, relay_status,
}

-- Recording an earning leaves the credits and the debits.
earned_or-record_earning :
    (ev : EarningEvent) (m : Mem)
    → let m' = earned_or m (record_earning ev m) in
      (m'.credits ≡ m.credits) × (m'.debit_jobs ≡ m.debit_jobs)
unfolding earned_or record_earning finish_earning
earned_or-record_earning ev m = elim (Bool-cases (str_eq ev.job_id "" || str_eq ev.static_pk "")) [
  | inl e ↦ rw e (refl, refl)
  | inr e ↦ elim (Bool-cases (seen m.earning_events (settlement_key ev))) [
    | inl f ↦ rw (e, f) (refl, refl)
    | inr f ↦ elim (Option-cases (raise_row ev m.earning_rows)) [
      | inl g ↦ rw (e, f, g) (refl, refl)
      | inr (rows, g) ↦ rw (e, f, g) (refl, refl)
    ]
  ]
]

pub credit_balance-credits :
    (a b : Mem) (key : String) → a.credits ≡ b.credits → credit_balance a key ≡ credit_balance b key
unfolding credit_balance
credit_balance-credits a b key h = ap (λ c. or_zero (Dict.get c key)) h

Sum-cases : {A B : Type 0} (x : A ⊎ B) → ((a : A) × (x ≡ inl a)) ⊎ ((b : B) × (x ≡ inr b))
Sum-cases (inl a) = inl (a, refl)
Sum-cases (inr b) = inr (b, refl)

Executed-cases :
    (x : Executed)
    → ((res : Result) × (deltas : List String) × (x ≡ served res deltas))
      ⊎ ((canceled : Bool) × (e : ExecError) × (x ≡ broken canceled e))
Executed-cases (served res deltas) = inl (res, deltas, refl)
Executed-cases (broken canceled e) = inr (canceled, e, refl)

abbrev pub is_completion : Answer → Bool
is_completion (refused status code) = false
is_completion silent = false
is_completion (completion res content) = true

-- No error of the relay is answered with a completion.
is_completion-map_relay_err :
    (canceled : Bool) (e : ExecError) → is_completion (map_relay_err canceled e) ≡ false
unfolding map_relay_err
is_completion-map_relay_err canceled e = elim (Bool-cases (relay_status canceled e == 499)) [
  | inl f ↦ rw f refl
  | inr f ↦ rw f refl
]

module _ {Float : Type 0} (s : Server Float) where
  pub record_job-credits :
      (key_id model : String) (res : Result) (mult : Float) (m : Mem)
      → let m' = (record_job s key_id model res mult m).0 in
        (m'.credits ≡ m.credits) × (m'.debit_jobs ≡ m.debit_jobs)
  unfolding record_job record_usage
  record_job-credits key_id model res mult m = earned_or-record_earning _ _

  -- Metering a job that was not debited before.
  balance-meter :
      (key_id key model : String) (res : Result) (m : Mem)
      → seen m.debit_jobs res.job_id ≡ false
      → credit_balance (meter s key_id model res m) key ≡ (
          if str_eq key_id key
          then add64
              (credit_balance m key)
              (neg64 (job_quote s model res s.price_multiplier).gross_micros)
          else credit_balance m key)
  unfolding meter
  balance-meter key_id key model res m fresh =
      let (credits, debits) = record_job-credits key_id model res s.price_multiplier m in
      let m' = (record_job s key_id model res s.price_multiplier m).0 in
      let debit : Credit = record {
        key_id = key_id;
        delta_micros = neg64 (job_quote s model res s.price_multiplier).gross_micros;
        reason = "debit";
        stripe_ref = "";
        job_id = res.job_id;
      } in
      balance-first_debit debit m' key refl (ap (λ d. seen d res.job_id) debits ∙ fresh)
      ∙ rw (credit_balance-credits m' m key credits) refl

  -- A request is checked against the credit last.
  check_model_lem :
      (key_id : String) (req : ChatRequest) (m : Mem) (class : Option String) (rr : RelayRequest)
      → check_model s key_id req m class ≡ inr rr
      → (s.billing_enforce && le64 (credit_balance m key_id) 0) ≡ false
  unfolding check_model
  check_model_lem key_id req m none rr h = absurd (cc h)
  check_model_lem key_id req m (some class) rr h =
      elim (Bool-cases (s.billing_enforce && le64 (credit_balance m key_id) 0)) [
        | inr e ↦ e
        | inl e ↦
            let refused_now : check_model s key_id req m (some class)
                ≡ inl (402, "insufficient_credit") =
              rw e refl in
            absurd (cc (h, refused_now))
      ]

  check_lem :
      (key_id : String) (body : Option ChatRequest) (m : Mem) (rr : RelayRequest)
      → check s key_id body m ≡ inr rr
      → (s.billing_enforce && le64 (credit_balance m key_id) 0) ≡ false
  unfolding check
  check_lem key_id none m rr h = absurd (cc h)
  check_lem key_id (some req) m rr h =
      elim (Bool-cases (str_eq req.model "" || is_empty req.messages)) [
        | inl e ↦
            let bad : check s key_id (some req) m ≡ inl (400, "invalid_request") = rw e refl in
            absurd (cc (h, bad))
        | inr e ↦ elim (Bool-cases (messages_too_big s.byte_length req.messages)) [
          | inl f ↦
              let large : check s key_id (some req) m ≡ inl (413, "prompt_too_large") =
                rw (e, f) refl in
              absurd (cc (h, large))
          | inr f ↦
              let passed : check s key_id (some req) m
                  ≡ check_model s key_id req m (resolve_model s.cat req.model) =
                rw (e, f) refl in
              check_model_lem key_id req m (resolve_model s.cat req.model) rr (sym passed ∙ h)
        ]
      ]

  -- Where every job that the relay serves is new to the debits, a chat either answers with all
  -- that the relay passed on, and then its key had credit if the server asks for it and pays the gross
  -- price of the tokens, no other key's balance changing; or it answers with an error or not at all, and
  -- the store is as it was.
  pub balance-handle_chat_completions :
      (execute : RelayRequest → Executed) (key_id key : String) (body : Option ChatRequest)
      (m : Mem)
      → ((rr : RelayRequest) (res : Result) (deltas : List String)
          → execute rr ≡ served res deltas
          → seen m.debit_jobs res.job_id ≡ false)
      → let (m', a) = handle_chat_completions s execute key_id body m in
        ((rr : RelayRequest) × (res : Result) × (deltas : List String) × (execute rr
            ≡ served res deltas)
          × (a ≡ completion res (written "" deltas))
          × ((s.billing_enforce && le64 (credit_balance m key_id) 0) ≡ false)
          × (credit_balance m' key ≡ (
              if str_eq key_id key
              then add64
                  (credit_balance m key)
                  (neg64 (job_quote s rr.model res s.price_multiplier).gross_micros)
              else credit_balance m key)))
        ⊎ ((m' ≡ m) × (is_completion a ≡ false))
  unfolding handle_chat_completions run_checked
  balance-handle_chat_completions execute key_id key body m fresh =
      elim (Sum-cases (check s key_id body m)) [
        | inl ((status, code), e) ↦ rw e (inr (refl, refl))
        | inr (rr, e) ↦ rw e (elim (Executed-cases (execute rr)) [
          | inl (res, deltas, f) ↦ rw f (
              inl (
                rr,
                res,
                deltas,
                f,
                unfold blocking_chat in refl,
                check_lem key_id body m rr e,
                unfold blocking_chat in
                    balance-meter key_id key rr.model res m (fresh rr res deltas f),
              ))
          | inr (canceled, err, f) ↦ rw f (
              inr (
                unfold blocking_chat in refl,
                unfold blocking_chat in is_completion-map_relay_err canceled err,
              ))
        ])
      ]
