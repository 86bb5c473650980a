-- ===== src/Council/Record/Tests.antt =====
-- A panel of two, one of which does not answer, and what is published of its outcome.
use mathlib.Core.Option.{some-injective}
use Prim.Native.Nat.{min}
use shared_compute.Common.{
  ◌<◌, ◌≤◌, ◌≡◌, subst, refl, String, true, false, Option, none, some, List, [], ◌∷◌, length, All,
  arith,
}
use shared_compute.Common.Int64.{half}
use shared_compute.Common.Sort.{Sorter, insertion_sorter}
use shared_compute.Council.{
  Proposal, Review, Reviewer, Outcome, default_policy, approve, signed, evaluate, seats_wanted,
}
use shared_compute.Council.Seats.Model.{is_decision}
use shared_compute.Council.Record.{Digests, sev_rank, decision_body}
use shared_compute.Council.Record.Counts.{total_votes, Decides, votes-decision_body}

abbrev vote : Review
vote = record {
  seat = "";
  role = "";
  decision = approve;
  severity = "MEDIUM";
  attack_scenarios = [];
  required_controls = [];
  note = "";
}

abbrev reviewer : String → Option Review → Reviewer (Unit {0})
reviewer seat answer = record { seat = seat; role = "critic"; review = λ p. answer }

abbrev workload : Proposal (Unit {0})
workload = record { id = "w"; title = "t"; risk_class = "normal"; facts = tt; source_digest = "" }

abbrev panel : List (Reviewer (Unit {0}))
panel = reviewer "a" (some vote) ∷ reviewer "b" none ∷ []

abbrev sorter : Sorter (Reviewer (Unit {0}))
sorter = insertion_sorter (Reviewer (Unit {0}))

abbrev digests : Digests
digests = record {
  roster_digest = "roster";
  constitution_digest = "constitution";
  short_hash = λ s. s;
  unix = λ t. t;
}

panel-Decides : All (Decides workload) panel
unfolding signed
panel-Decides = (
  λ r h.
      let e : vote ≡ r = some-injective vote r h in
      subst (λ x. is_decision (signed (reviewer "a" (some vote)) x).decision ≡ true) e refl,
  (λ r h. absurd (cc h), tt),
)

few : seats_wanted default_policy "normal" < half
unfolding seats_wanted
few = omega arith

votes-decision_body_example :
    (o : Outcome) × (evaluate sorter
        (λ id a b. false)
        (λ l. l)
        (λ a b c d e f g. "hash")
        9
        workload
        panel
        default_policy
      ≡ some o)
    × (total_votes (decision_body digests o "t").votes
        ≡ min (seats_wanted default_policy "normal") (length panel))
    × All (λ r. sev_rank r.severity ≤ sev_rank (decision_body digests o "t").severity) o.reviews
votes-decision_body_example =
    votes-decision_body sorter (λ id a b. false) (λ l. l) (λ a b c d e f g. "hash") digests "t" 9
      workload panel default_policy few (omega arith) panel-Decides
