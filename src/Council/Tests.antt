-- ===== src/Council/Tests.antt =====
-- A panel of three reviewers and a ledger, and the theorems of the Council at them.
use mathlib.Core.List.{Perm}
use Prim.Native.Nat.{min}
use shared_compute.Common.{
  ◌≡◌, ◌≢◌, refl, String, true, false, Option, none, some, List, [], ◌∷◌, ◌++◌, length, arith,
  replicate,
}
use shared_compute.Common.Sort.{Sorter, insertion_sorter}
use shared_compute.Council.{
  Proposal, Review, Reviewer, Outcome, default_policy, approve, block, high, evaluate, seats_wanted,
}
use shared_compute.Council.Verdict.{silent, votes, verdict, evaluate_lem}
use shared_compute.Council.Ledger.{
  chain_valid, record_decision, record_decisions, last_demo_hash, link, last_hash, all_decisions,
  verify_chain, chain_valid-record_decisions, chain_broken,
}

abbrev vote : String → String → Review
vote decision severity = record {
  seat = "";
  role = "";
  decision = decision;
  severity = severity;
  attack_scenarios = [];
  required_controls = "log" ∷ [];
  note = "";
}

abbrev reviewer : String → Option Review → Reviewer (Unit {0})
reviewer seat answer = record { seat = seat; role = "critic"; review = λ p. answer }

abbrev workload : Proposal (Unit {0})
workload = record { id = "w"; title = "t"; risk_class = "normal"; facts = tt; source_digest = "" }

abbrev panel : List (Reviewer (Unit {0}))
panel =
    reviewer "a" (some (vote approve "LOW"))
    ∷ reviewer "b" none
    ∷ reviewer "c" (some (vote block high))
    ∷ reviewer "d" (some (vote approve "LOW"))
    ∷ []

abbrev sorter : Sorter (Reviewer (Unit {0}))
sorter = insertion_sorter (Reviewer (Unit {0}))

abbrev asked : Option Outcome
asked =
    evaluate sorter (λ id a b. false) (λ l. l) (λ a b c d e f g. "hash") 9 workload panel
      default_policy

evaluate_lem_example :
    (chosen : List (Reviewer (Unit {0}))) × (rest : List (Reviewer (Unit {0}))) × (o : Outcome)
    × (asked ≡ some o)
    × Perm (chosen ++ rest) panel
    × (length chosen ≡ min (seats_wanted default_policy "normal") (length panel))
    × (o.missing ≡ silent workload chosen)
    × (o.reviews ≡ votes workload chosen)
    × (o.decision ≡ verdict default_policy o.missing o.reviews)
evaluate_lem_example =
    evaluate_lem sorter (λ id a b. false) (λ l. l) (λ a b c d e f g. "hash") 9 workload panel
      default_policy (unfold seats_wanted in omega arith) (omega arith)

abbrev three_votes : List Review
three_votes = vote approve "LOW" ∷ vote block high ∷ vote block high ∷ []

-- A hash that marks every record.
abbrev digest : String → String → String
digest body prev = "#"

demo_valid : chain_valid digest ("demo" ∷ []) [] ≡ true
unfolding chain_valid all_decisions verify_chain link
demo_valid = refl

chain_valid-record_decisions_example :
    chain_valid digest ("demo" ∷ []) (record_decisions digest ("demo" ∷ []) [] ("x" ∷ "y" ∷ []))
    ≡ true
chain_valid-record_decisions_example =
    chain_valid-record_decisions digest ("demo" ∷ []) [] ("x" ∷ "y" ∷ []) demo_valid (omega arith)

fresh : digest "x" (last_demo_hash digest []) ≢ last_demo_hash digest []
unfolding last_demo_hash link last_hash
fresh = λ e. cc

chain_broken_example :
    chain_valid digest []
      (record_decision digest [] (record_decisions digest [] [] ("x" ∷ "y" ∷ replicate 48 "z")) "w")
    ≡ false
chain_broken_example = chain_broken digest [] "x" "y" (replicate 48 "z") "w" refl fresh
