-- ===== src/Marketplace/Tests.antt =====
-- Runs of the quote store.
use shared_compute.Common.{ℕ, ◌≡◌, refl, true, none, some, List, [], ◌∷◌}
use shared_compute.Common.Dict
use shared_compute.Marketplace.{Quote, Store, new_store, new_quote, create, mark_accepted}
use shared_compute.Marketplace.Quotes.{Op, creates, gets, accepts, step, run}

abbrev calls : List (Op ℕ)
calls = creates "b" 7 "key" "model" 2 ∷ gets "a" 8 ∷ accepts "b" 9 ∷ []

abbrev quoted : Store ℕ
quoted = (create "a" 0 "key" "model" 1 (new_store ℕ 100)).0

abbrev accepted_quote : Quote ℕ
accepted_quote = record (new_quote "a" 0 100 "key" "model" 1) { accepted = true; accepted_at = 5 }

mark_accepted_first : (mark_accepted "a" 5 quoted).1 ≡ some accepted_quote
unfolding mark_accepted create Dict.get Dict.put
mark_accepted_first = refl

accepted_again : (mark_accepted "a" 6 (run (mark_accepted "a" 5 quoted).0 calls)).1 ≡ none
unfolding run step mark_accepted create Dict.get Dict.put Dict.delete
accepted_again = refl
