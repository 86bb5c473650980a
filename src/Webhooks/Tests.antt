-- ===== src/Webhooks/Tests.antt =====
-- A checkout session that Stripe delivers twice.
use shared_compute.Common.{◌≡◌, refl, true, some, [], ◌∷◌}
use shared_compute.Store.{new_mem}
use shared_compute.Store.Ledger.{credit_balance}
use shared_compute.Store.Ledger.Credits.{total}
use shared_compute.Webhooks.{CheckoutSession, Request}
use shared_compute.Webhooks.Replay.{deliveries, topups, balance-deliveries}

abbrev paid : CheckoutSession
paid = record {
  id = "cs_1";
  payment_status = "paid";
  client_reference_id = "k";
  metadata = [];
  amount_total = 500;
}

abbrev delivery : Request
delivery = record {
  configured = true;
  readable = true;
  event = some (record { type_of = "checkout.session.completed"; session = some paid });
}

balance-deliveries_example :
    credit_balance (deliveries (λ s. 0) (delivery ∷ delivery ∷ []) (new_mem (λ k. k) [] [])) "k"
    ≡ total "k" [] (topups (λ s. 0) (delivery ∷ delivery ∷ []))
balance-deliveries_example =
    balance-deliveries (λ s. 0) (λ k. k) [] [] (delivery ∷ delivery ∷ []) "k"

credited_once : total "k" [] (topups (λ s. 0) (delivery ∷ delivery ∷ [])) ≡ 5_000_000
unfolding total topups
credited_once = refl
