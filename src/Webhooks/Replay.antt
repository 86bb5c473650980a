-- ===== src/Webhooks/Replay.antt =====
-- A checkout session credits its key once, however often Stripe delivers it.
use shared_compute.Common.{
  ◌*◌, ◌%◌, ◌^◌, ◌==◌, ◌≡◌, refl, sym, ap, ◌∙◌, String, not, ◌&&◌, ◌||◌, Option-cases, arith,
  Option, none, some, List, [], ◌∷◌, ◌++◌, str_eq, if◌then◌else◌, Bool-cases, inl, inr,
}
use shared_compute.Common.Int64.{Int64, lt64, le64}
use shared_compute.Common.Dict
use shared_compute.Store.{Mem, new_mem}
use shared_compute.Store.Ledger.{Credit, credit_balance}
use shared_compute.Store.Ledger.Credits.{add_credits, add_credits-append, total, balance-new_mem}
use shared_compute.Webhooks.{CheckoutSession, Request, on_session, on_event, handle_stripe_webhook}

module _ (parse_int : String → Int64) where
  pub deliveries : List Request → Mem → Mem
  deliveries [] m = m
  deliveries (r ∷ rs) m = deliveries rs (handle_stripe_webhook parse_int r m).0

  -- The session of a request whose event is verified and of one of the two types of a checkout.
  abbrev pub session_of : Request → Option CheckoutSession
  session_of r =
      if r.configured && r.readable
      then elim r.event [
        | none ↦ none
        | some ev ↦
            if str_eq ev.type_of "checkout.session.completed"
              || str_eq ev.type_of "checkout.session.async_payment_succeeded"
            then ev.session
            else none
      ]
      else none

  -- The key that a session pays for, and the millionths of a dollar: those of its metadata, or ten
  -- thousand for each cent.
  abbrev pub payer : CheckoutSession → String
  payer cs =
      if str_eq cs.client_reference_id ""
      then elim (Dict.get cs.metadata "key_id") [ none ↦ "" | some key ↦ key ]
      else cs.client_reference_id

  abbrev pub paid : CheckoutSession → Int64
  paid cs =
      let asked =
        parse_int (elim (Dict.get cs.metadata "credit_micros") [ none ↦ "" | some text ↦ text ]) in
      if asked == 0 then cs.amount_total * 10_000 % 2 ^ 64 else asked

  -- The credit that a paid session buys, under the session's id.
  abbrev pub session_credits : Option CheckoutSession → List Credit
  session_credits none = []
  session_credits (some cs) =
      if str_eq cs.payment_status "paid" && not (str_eq (payer cs) "") && lt64 0 (paid cs)
      then record {
        key_id = payer cs;
        delta_micros = paid cs;
        reason = "topup";
        stripe_ref = cs.id;
        job_id = "";
      }
        ∷ []
      else []

  unfoldable pub topups : List Request → List Credit
  topups [] = []
  topups (r ∷ rs) = session_credits (session_of r) ++ topups rs

  not_positive : (a : Int64) → le64 a 0 ≡ not (lt64 0 a)
  not_positive a = ground arith

  on_session-add_credits :
      (o : Option CheckoutSession) (m : Mem)
      → (on_session parse_int o m).0 ≡ add_credits (session_credits o) m
  unfolding on_session add_credits
  on_session-add_credits none m = refl
  on_session-add_credits (some cs) m = elim (Bool-cases (str_eq cs.payment_status "paid")) [
    | inr p ↦ rw p refl
    | inl p ↦ elim (Bool-cases (str_eq (payer cs) "")) [
      | inl k ↦ rw (p, k) refl
      | inr k ↦ elim (Bool-cases (lt64 0 (paid cs))) [
        | inl g ↦ rw (p, k, not_positive (paid cs), g) refl
        | inr g ↦ rw (p, k, not_positive (paid cs), g) refl
      ]
    ]
  ]

  handle-add_credits :
      (r : Request) (m : Mem)
      → (handle_stripe_webhook parse_int r m).0 ≡ add_credits (session_credits (session_of r)) m
  unfolding handle_stripe_webhook on_event add_credits
  handle-add_credits r m = elim (Bool-cases r.configured) [
    | inr c ↦ rw c refl
    | inl c ↦ elim (Bool-cases r.readable) [
      | inr b ↦ rw (c, b) refl
      | inl b ↦ elim (Option-cases r.event) [
        | inl n ↦ rw (c, b, n) refl
        | inr (ev, n) ↦
            elim (Bool-cases (
              str_eq ev.type_of "checkout.session.completed"
              || str_eq ev.type_of "checkout.session.async_payment_succeeded")) [
                | inl t ↦ rw (c, b, n, t) (on_session-add_credits ev.session m)
                | inr t ↦ rw (c, b, n, t) refl
              ]
      ]
    ]
  ]

  deliveries-add_credits :
      (rs : List Request) (m : Mem) → deliveries rs m ≡ add_credits (topups rs) m
  unfolding deliveries topups add_credits
  deliveries-add_credits [] m = refl
  deliveries-add_credits (r ∷ rs) m =
      deliveries-add_credits rs (handle_stripe_webhook parse_int r m).0
      ∙ ap (add_credits (topups rs)) (handle-add_credits r m)
      ∙ sym (add_credits-append (session_credits (session_of r)) (topups rs) m)

  -- On a new store, whatever requests the webhook handles, a key's balance is the sum modulo 2 ^ 64 of
  -- the millionths of a dollar that the paid sessions of verified checkout events give it, a session that
  -- was handled before counting nothing again.
  pub balance-deliveries :
      (key_id : String → String) (keys tokens : List String) (rs : List Request) (key : String)
      → credit_balance (deliveries rs (new_mem key_id keys tokens)) key ≡ total key [] (topups rs)
  balance-deliveries key_id keys tokens rs key =
      ap (λ m. credit_balance m key) (deliveries-add_credits rs (new_mem key_id keys tokens))
      ∙ balance-new_mem key_id keys tokens (topups rs) key
