-- ===== src/Council/Record/Counts.antt =====
-- The published counts and severity against the votes.
use mathlib.Core.List.{
  Mem, mem-cons_of_mem, mem-cons_self, not-mem-nil, forall_mem-cons, mem-append_left,
}
use mathlib.Core.List.Perm
use Prim.Native.Nat.{min}
use shared_compute.Common.{
  ℕ, ◌+◌, ◌<◌, ◌≤◌, ◌≡◌, refl, ap, String, Bool, true, some, List, [], ◌∷◌, length, ltb, All,
  Bool-cases, Option-cases, inl, inr, arith,
}
use shared_compute.Common.Int64.{half}
use shared_compute.Common.Sort.{Sorter}
use shared_compute.Council.{
  Proposal, Review, Reviewer, Policy, Outcome, signed, evaluate, seats_wanted,
}
use shared_compute.Council.Verdict.{silent, votes, evaluate_lem}
use shared_compute.Council.Seats.{low}
use shared_compute.Council.Seats.Model.{is_decision}
use shared_compute.Council.Record.{
  VoteCounts, Digests, count_vote, tally, sev_rank, worse, worst_severity, decision_body,
}

abbrev pub total_votes : VoteCounts → ℕ
total_votes v = v.approve + v.conditional + v.block + v.missing

-- One of the three decisions counts once.
total_votes-count_vote :
    (r : Review) (v : VoteCounts)
    → is_decision r.decision ≡ true
    → total_votes (count_vote r v) ≡ total_votes v + 1
unfolding count_vote
total_votes-count_vote r v h = ground (arith, h)

module _ {Facts : Type 0} (p : Proposal Facts) where
  -- What a reviewer answers is one of the three decisions, or empty.
  abbrev pub Decides : Reviewer Facts → Type 0
  Decides rv = (r : Review) → rv.review p ≡ some r → is_decision (signed rv r).decision ≡ true

  Decides-IsProp : (rv : Reviewer Facts) → IsProp (Decides rv)
  Decides-IsProp rv = hlevel

  All-Decides :
      (rvs : List (Reviewer Facts))
      → All Decides rvs
      → (rv : Reviewer Facts) → Mem rv rvs
      → Decides rv
  All-Decides [] h rv m = absurd (not-mem-nil m)
  All-Decides (x ∷ rvs) h rv m = (forall_mem-cons Decides-IsProp).1 (h.0, All-Decides rvs h.1) rv m

  total_votes-tally :
      (rvs : List (Reviewer Facts)) (v : VoteCounts)
      → ((rv : Reviewer Facts) → Mem rv rvs → Decides rv)
      → total_votes (tally (votes p rvs) v) + length (silent p rvs) ≡ total_votes v + length rvs
  unfolding tally
  total_votes-tally [] v h = refl
  total_votes-tally (rv ∷ rvs) v h =
      let rest = λ (w : VoteCounts). total_votes-tally rvs w (λ x m. h x (mem-cons_of_mem rv m)) in
      elim (Option-cases (rv.review p)) [
        | inl e ↦ rw e (omega (arith, rest v))
        | inr (r, e) ↦ rw e (
            omega (
              arith,
              rest (count_vote (signed rv r) v),
              total_votes-count_vote (signed rv r) v (h rv mem-cons_self r e),
            ))
      ]

sev_rank-worse :
    (a b : String) → (sev_rank a ≤ sev_rank (worse a b)) × (sev_rank b ≤ sev_rank (worse a b))
unfolding worse
sev_rank-worse a b = elim (Bool-cases (ltb (sev_rank a) (sev_rank b))) [
  | inl e ↦ rw e (ground (arith, e), omega arith)
  | inr e ↦ rw e (omega arith, ground (arith, e))
]

worst_severity_lem :
    (rs : List Review) (sev : String)
    → (sev_rank sev ≤ sev_rank (worst_severity rs sev))
      × All (λ r. sev_rank r.severity ≤ sev_rank (worst_severity rs sev)) rs
unfolding worst_severity
worst_severity_lem [] sev = (omega arith, tt)
worst_severity_lem (r ∷ rs) sev =
    let (a, b) = sev_rank-worse sev r.severity in
    let (c, d) = worst_severity_lem rs (worse sev r.severity) in
    (omega (arith, a, c), (omega (arith, b, c), d))

module _ {Facts : Type 0} (sorter : Sorter (Reviewer Facts))
    (before : String → String → String → Bool) (sort_strings : List String → List String)
    (record_hash : String
      → String
      → String
      → String
      → List String
      → List String
      → List String
      → String) where
  -- Where the policy's count for the risk is not negative, the reviewers are fewer than 2 ^ 63 and each
  -- answers with one of the three decisions, an empty one or not at all, the votes that the public record
  -- of an outcome counts, the missing ones included, are as many as the policy wants, or as there are
  -- reviewers where they are fewer; and no review is more severe than the record.
  pub votes-decision_body :
      (digests : Digests) (title : String) (now : ℕ) (p : Proposal Facts)
      (reviewers : List (Reviewer Facts)) (pol : Policy)
      → seats_wanted pol p.risk_class < half
      → length reviewers < half
      → All (Decides p) reviewers
      → (o : Outcome) × (evaluate sorter before sort_strings record_hash now p reviewers pol
          ≡ some o)
        × (total_votes (decision_body digests o title).votes
            ≡ min (seats_wanted pol p.risk_class) (length reviewers))
        × All
            (λ r. sev_rank r.severity ≤ sev_rank (decision_body digests o title).severity)
            o.reviews
  unfolding decision_body
  votes-decision_body digests title now p reviewers pol few small decides =
      let (chosen, rest, o, e, perm, n, missing, reviews, decided) =
        evaluate_lem sorter before sort_strings record_hash now p reviewers pol few small in
      let start : VoteCounts = record {
        approve = 0;
        conditional = 0;
        block = 0;
        missing = length o.missing;
      } in
      let counted = total_votes-tally p chosen start (λ rv m.
        All-Decides p reviewers decides rv ((Perm.mem_iff perm).0 (mem-append_left rest m))) in
      let (low_enough, severe) = worst_severity_lem o.reviews low in
      (o, e, rw reviews (omega (arith, counted, n, ap length missing)), severe)
