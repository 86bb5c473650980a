-- ===== src/Council/Verdict.antt =====
-- What Evaluate decides, against plain counts of the votes.
use mathlib.Core.List.{Perm, append-nil, append_assoc}
use Prim.Native.Nat.{min}
use shared_compute.Common.{
  ℕ, ◌+◌, ◌<◌, ◌≡◌, inl, inr, refl, ap, ◌∙◌, String, Bool, true, ◌&&◌, ◌||◌, none, some, List, [],
  ◌∷◌, ◌++◌, length, take, drop, take-append-drop, length-take, select, ltb, str_eq, if◌then◌else◌,
  Bool-cases, Option-cases, arith,
}
use shared_compute.Common.Int64.{lt64, le64, half}
use shared_compute.Common.Sort.{Sorter, length-Perm}
use shared_compute.Council.{
  approve, conditional, block, high, critical, Proposal, Review, Reviewer, Policy, Outcome,
  seats_wanted, Votes, signed, add_vote, collect, Blocks, count_blocks, weigh, decide, selected,
  outcome, evaluate,
}

abbrev pub is_block : Review → Bool
is_block r = str_eq r.decision block

abbrev pub is_critical_block : Review → Bool
is_critical_block r = is_block r && str_eq r.severity critical

abbrev pub is_high_block : Review → Bool
is_high_block r = is_block r && (str_eq r.severity high || str_eq r.severity critical)

abbrev pub all_approve : List Review → Bool
all_approve [] = true
all_approve (r ∷ rs) = str_eq r.decision approve && all_approve rs

-- The verdict on the votes: a missing vote or enough severe blocks block, and only unanimity approves.
abbrev pub verdict : Policy → List String → List Review → String
verdict pol missing rs =
    if ltb 0 (length missing)
      || (le64 pol.critical_blocks (length (select is_critical_block rs))
          || le64 pol.high_blocks (length (select is_high_block rs)))
    then block
    else if all_approve rs
    then approve
    else conditional

count_blocks-length :
    (rs : List Review) (b : Blocks)
    → ((count_blocks rs b).critical_blocks
        ≡ b.critical_blocks + length (select is_critical_block rs))
      × ((count_blocks rs b).high_blocks ≡ b.high_blocks + length (select is_high_block rs))
unfolding count_blocks
count_blocks-length [] b = (omega arith, omega arith)
count_blocks-length (r ∷ rs) b = elim (Bool-cases (str_eq r.decision block)) [
  | inl e ↦
      let next : Blocks = record {
        blocks = b.blocks + 1;
        critical_blocks =
            if str_eq r.severity critical then b.critical_blocks + 1 else b.critical_blocks;
        high_blocks =
            if str_eq r.severity high || str_eq r.severity critical
            then b.high_blocks + 1
            else b.high_blocks;
      } in
      let rest = count_blocks-length rs next in
      (ground (arith, e, rest.0), ground (arith, e, rest.1))
  | inr e ↦
      let rest = count_blocks-length rs b in (ground (arith, e, rest.0), ground (arith, e, rest.1))
]

weigh-approve : (rs : List Review) → weigh rs ≡ (if all_approve rs then approve else conditional)
unfolding weigh
weigh-approve [] = refl
weigh-approve (r ∷ rs) = ground (arith, weigh-approve rs)

decide-verdict : (pol : Policy) (v : Votes) → decide pol v ≡ verdict pol v.missing v.reviews
unfolding decide
decide-verdict pol v =
    let c =
      count_blocks-length v.reviews (record { blocks = 0; critical_blocks = 0; high_blocks = 0 }) in
    ground (arith, c.0, c.1, weigh-approve v.reviews)

module _ {Facts : Type 0} where
  -- The seats that gave no review, and the reviews of the others under their own seats.
  abbrev pub silent : Proposal Facts → List (Reviewer Facts) → List String
  silent p [] = []
  silent p (rv ∷ rvs) = elim (rv.review p) [ none ↦ rv.seat ∷ silent p rvs | some r ↦ silent p rvs ]

  abbrev pub votes : Proposal Facts → List (Reviewer Facts) → List Review
  votes p [] = []
  votes p (rv ∷ rvs) = elim (rv.review p) [
    | none ↦ votes p rvs
    | some r ↦ signed rv r ∷ votes p rvs
  ]

  collect-votes :
      (p : Proposal Facts) (rvs : List (Reviewer Facts)) (v : Votes)
      → collect p rvs v
        ≡ record { reviews = v.reviews ++ votes p rvs; missing = v.missing ++ silent p rvs }
  unfolding collect
  collect-votes p [] v = rw (append-nil, append-nil) refl
  collect-votes p (rv ∷ rvs) v = elim (Option-cases (rv.review p)) [
    | inl e ↦
        rw (e, add_vote)
          (collect-votes p rvs (record v { missing = v.missing ++ rv.seat ∷ [] })
            ∙ rw append_assoc refl)
    | inr (r, e) ↦
        rw (e, add_vote)
          (collect-votes p rvs (record v { reviews = v.reviews ++ signed rv r ∷ [] })
            ∙ rw append_assoc refl)
  ]

module _ {Facts : Type 0} (sorter : Sorter (Reviewer Facts))
    (before : String → String → String → Bool) (sort_strings : List String → List String)
    (record_hash : String
      → String
      → String
      → String
      → List String
      → List String
      → List String
      → String) where
  selected-take :
      (p : Proposal Facts) (reviewers : List (Reviewer Facts)) (pol : Policy)
      → seats_wanted pol p.risk_class < half
      → length reviewers < half
      → selected sorter before sort_strings record_hash pol p reviewers
        ≡ some (
            take
              (min (seats_wanted pol p.risk_class) (length reviewers))
              (sorter.sort (λ a b. before p.id a.seat b.seat) reviewers))
  unfolding selected
  selected-take p reviewers pol few small =
      elim (Bool-cases (lt64 (length reviewers) (seats_wanted pol p.risk_class))) [
        | inl e ↦
            let n : length reviewers ≡ min (seats_wanted pol p.risk_class) (length reviewers) =
              ground (arith, e) in
            ground (arith, e, n)
        | inr e ↦
            let n : seats_wanted pol p.risk_class
                ≡ min (seats_wanted pol p.risk_class) (length reviewers) =
              ground (arith, e) in
            ground (arith, e, n)
      ]

  outcome-votes :
      (now : ℕ) (pol : Policy) (p : Proposal Facts) (chosen : List (Reviewer Facts))
      → let o = outcome sorter before sort_strings record_hash now pol p chosen in
        (o.missing ≡ silent p chosen)
        × (o.reviews ≡ votes p chosen)
        × (o.decision ≡ verdict pol o.missing o.reviews)
  unfolding outcome
  outcome-votes now pol p chosen = (
    rw collect-votes refl,
    rw collect-votes refl,
    decide-verdict pol (collect p chosen (record { reviews = []; missing = [] })),
  )

  -- Where the policy's count for the risk is not negative and the reviewers are fewer than 2 ^ 63,
  -- Evaluate asks as many reviewers as the policy wants, or all where they are fewer, each of them
  -- at most once, keeps every review under its reviewer's seat and every seat that failed as
  -- missing, and its decision is the verdict on these votes.
  pub evaluate_lem :
      (now : ℕ) (p : Proposal Facts) (reviewers : List (Reviewer Facts)) (pol : Policy)
      → seats_wanted pol p.risk_class < half
      → length reviewers < half
      → (chosen : List (Reviewer Facts)) × (rest : List (Reviewer Facts)) × (o : Outcome)
        × (evaluate sorter before sort_strings record_hash now p reviewers pol ≡ some o)
        × Perm (chosen ++ rest) reviewers
        × (length chosen ≡ min (seats_wanted pol p.risk_class) (length reviewers))
        × (o.missing ≡ silent p chosen)
        × (o.reviews ≡ votes p chosen)
        × (o.decision ≡ verdict pol o.missing o.reviews)
  unfolding evaluate selected outcome
  evaluate_lem now p reviewers pol few small =
      let voted = outcome-votes now pol p (take n ranked) in
      (
        take n ranked,
        drop n ranked,
        outcome sorter before sort_strings record_hash now pol p (take n ranked),
        rw (selected-take p reviewers pol few small) refl,
        rw take-append-drop (sorter.sort-perm _ reviewers),
        length-take n ranked
            ∙ ap (min n) (length-Perm (sorter.sort-perm _ reviewers))
            ∙ omega arith,
        voted.0,
        voted.1,
        voted.2,
      )
    where
      n : ℕ
      n = min (seats_wanted pol p.risk_class) (length reviewers)

      ranked : List (Reviewer Facts)
      ranked = sorter.sort (λ a b. before p.id a.seat b.seat) reviewers
