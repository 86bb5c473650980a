-- ===== src/Council/Seats/BuiltIn.antt =====
-- What the three seats together decide, in whichever order they are asked.
use mathlib.Core.List.{Perm, foldr, append-nil}
use mathlib.Core.List.Perm
use native.Mathlib.Nat.{ℕ_set}
use shared_compute.Common.{
  ℕ, ◌+◌, ◌<◌, ◌≤◌, ◌≡◌, refl, sym, ap, subst, ◌∙◌, String, Bool, true, false, not, ◌&&◌, ◌||◌,
  none, some, List, [], ◌∷◌, ◌++◌, length, length-append, select, ltb, str_eq, if◌then◌else◌,
  Bool-cases, Option-cases, inl, inr, arith,
}
use shared_compute.Common.Int64.{lt64, le64, half}
use shared_compute.Common.Sort.{Sorter, length-Perm}
use shared_compute.Council.{
  approve, conditional, block, Proposal, Review, Reviewer, Policy, Outcome, default_policy, signed,
  evaluate, seats_wanted,
}
use shared_compute.Council.Verdict.{
  silent, votes, verdict, is_critical_block, is_high_block, all_approve, evaluate_lem,
}
use shared_compute.Council.Seats.{
  Facts, Prices, risk_high, out_of_bounds, deterministic_review, is_lone_batch, is_redundant_spot,
  node_safety_review, is_underpriced, cost_governance_review, security_critic, node_safety,
  cost_governance, built_in, for_workload, risk_of,
}

-- A sum over a list, which a permutation keeps.
module _ {A : Type 0} (weight : A → ℕ) where
  abbrev sum : List A → ℕ
  sum l = foldr (λ a n. weight a + n) 0 l

abbrev dissents : Review → Bool
dissents r = not (str_eq r.decision approve)

all_approve-dissents :
    (rs : List Review)
    → all_approve rs ≡ (if ltb 0 (length (select dissents rs)) then false else true)
all_approve-dissents [] = refl
all_approve-dissents (r ∷ rs) = elim (Bool-cases (str_eq r.decision approve)) [
  | inl e ↦ rw e (all_approve-dissents rs)
  | inr e ↦ rw e (ground arith)
]

module _ {Facts : Type 0} (p : Proposal Facts) where
  -- One for a reviewer whose vote has the property.
  abbrev vote_weight : (Review → Bool) → Reviewer Facts → ℕ
  vote_weight q rv = elim (rv.review p) [ none ↦ 0 | some r ↦ if q (signed rv r) then 1 else 0 ]

  abbrev silence : Reviewer Facts → ℕ
  silence rv = elim (rv.review p) [ none ↦ 1 | some r ↦ 0 ]

  length-silent : (rvs : List (Reviewer Facts)) → length (silent p rvs) ≡ sum silence rvs
  length-silent [] = refl
  length-silent (rv ∷ rvs) = elim (Option-cases (rv.review p)) [
    | inl e ↦
        let w : silence rv ≡ 1 = rw (e, silence) refl in rw e (omega (arith, w, length-silent rvs))
    | inr (r, e) ↦
        let w : silence rv ≡ 0 = rw (e, silence) refl in rw e (omega (arith, w, length-silent rvs))
  ]

  length-votes :
      (q : Review → Bool) (rvs : List (Reviewer Facts))
      → length (select q (votes p rvs)) ≡ sum (vote_weight q) rvs
  length-votes q [] = refl
  length-votes q (rv ∷ rvs) = elim (Option-cases (rv.review p)) [
    | inl e ↦
        let w : vote_weight q rv ≡ 0 = rw (e, vote_weight) refl in
        rw e (omega (arith, w, length-votes q rvs))
    | inr (r, e) ↦ elim (Bool-cases (q (signed rv r))) [
      | inl f ↦
          let w : vote_weight q rv ≡ 1 = rw (e, vote_weight, f) refl in
          rw (e, f) (omega (arith, w, length-votes q rvs))
      | inr f ↦
          let w : vote_weight q rv ≡ 0 = rw (e, vote_weight, f) refl in
          rw (e, f) (omega (arith, w, length-votes q rvs))
    ]
  ]

  sum-Perm :
      (weight : Reviewer Facts → ℕ) (xs ys : List (Reviewer Facts))
      → Perm xs ys
      → sum weight xs ≡ sum weight ys
  sum-Perm weight xs ys h = Perm.foldr-eq ℕ_set (λ a n. weight a + n) (λ a b x. omega arith) h 0

  -- The verdict does not depend on the order in which the reviewers are asked.
  pub verdict-Perm :
      (pol : Policy) (xs ys : List (Reviewer Facts))
      → Perm xs ys
      → verdict pol (silent p xs) (votes p xs) ≡ verdict pol (silent p ys) (votes p ys)
  verdict-Perm pol xs ys h =
      let n : length (silent p xs) ≡ length (silent p ys) =
        length-silent xs ∙ sum-Perm silence xs ys h ∙ sym (length-silent ys) in
      let same = λ (q : Review → Bool).
        length-votes q xs ∙ sum-Perm (vote_weight q) xs ys h ∙ sym (length-votes q ys) in
      rw
        (
          n,
          same is_critical_block,
          same is_high_block,
          all_approve-dissents (votes p xs),
          all_approve-dissents (votes p ys),
          same dissents,
        )
        refl

-- What the three seats decide.
abbrev pub built_in_decision : {Float : Type 0} → Prices Float → Facts Float → String
built_in_decision prices f =
    if out_of_bounds f && prices.le_zero f.price_usd
    then block
    else if out_of_bounds f
        || prices.le_zero f.price_usd
        || is_lone_batch f
        || is_redundant_spot f
        || is_underpriced prices f
    then conditional
    else approve

-- What the policy reads of a vote.
abbrev Reads : Review → Bool → Bool → Type 0
Reads r blocks objects =
    (is_critical_block r ≡ false) × (is_high_block r ≡ blocks) × (dissents r ≡ objects)

module _ {Float : Type 0} (prices : Prices Float) (p : Proposal (Facts Float)) where
  deterministic-Reads :
      Reads
        (signed (security_critic prices) (deterministic_review p))
        (out_of_bounds p.facts)
        (out_of_bounds p.facts)
  unfolding signed deterministic_review
  deterministic-Reads = elim (Bool-cases (out_of_bounds p.facts)) [
    | inl e ↦ rw e (refl, refl, refl)
    | inr e ↦ elim (Bool-cases (str_eq p.risk_class risk_high)) [
      | inl f ↦ rw (e, f) (refl, refl, refl)
      | inr f ↦ rw (e, f) (refl, refl, refl)
    ]
  ]

  node_safety-Reads :
      Reads
        (signed (node_safety prices) (node_safety_review p))
        false
        (is_lone_batch p.facts || is_redundant_spot p.facts)
  unfolding signed node_safety_review
  node_safety-Reads = elim (Bool-cases (is_lone_batch p.facts)) [
    | inl e ↦ rw e (refl, refl, refl)
    | inr e ↦ elim (Bool-cases (is_redundant_spot p.facts)) [
      | inl f ↦ rw (e, f) (refl, refl, refl)
      | inr f ↦ rw (e, f) (refl, refl, refl)
    ]
  ]

  cost_governance-Reads :
      Reads
        (signed (cost_governance prices) (cost_governance_review prices p))
        (prices.le_zero p.facts.price_usd)
        (prices.le_zero p.facts.price_usd || is_underpriced prices p.facts)
  unfolding signed cost_governance_review
  cost_governance-Reads = elim (Bool-cases (prices.le_zero p.facts.price_usd)) [
    | inl e ↦ rw e (refl, refl, refl)
    | inr e ↦ elim (Bool-cases (is_underpriced prices p.facts)) [
      | inl f ↦ rw (e, f) (refl, refl, refl)
      | inr f ↦ rw (e, f) (refl, refl, refl)
    ]
  ]

  verdict-built_in :
      verdict default_policy (silent p (built_in prices)) (votes p (built_in prices))
      ≡ built_in_decision prices p.facts
  verdict-built_in =
      let (c1, h1, d1) = deterministic-Reads in
      let (c2, h2, d2) = node_safety-Reads in
      let (c3, h3, d3) = cost_governance-Reads in
      rw
        (
          length-votes p is_critical_block (built_in prices),
          length-votes p is_high_block (built_in prices),
          all_approve-dissents (votes p (built_in prices)),
          length-votes p dissents (built_in prices),
          c1,
          c2,
          c3,
          h1,
          h2,
          h3,
          d1,
          d2,
          d3,
        )
        (ground arith)

length-zero : {A : Type 0} (xs : List A) → length xs ≡ 0 → xs ≡ []
length-zero [] h = refl
length-zero (x ∷ xs) h = absurd (omega (arith, h))

module _ {Facts : Type 0} (sorter : Sorter (Reviewer Facts))
    (before : String → String → String → Bool) (sort_strings : List String → List String)
    (record_hash : String
      → String
      → String
      → String
      → List String
      → List String
      → List String
      → String) where
  -- Where the policy wants all reviewers, the decision is the verdict on all their votes.
  pub evaluate_all :
      (now : ℕ) (p : Proposal Facts) (reviewers : List (Reviewer Facts)) (pol : Policy)
      → length reviewers ≤ seats_wanted pol p.risk_class
      → seats_wanted pol p.risk_class < half
      → (o : Outcome) × (evaluate sorter before sort_strings record_hash now p reviewers pol
          ≡ some o)
        × (o.decision ≡ verdict pol (silent p reviewers) (votes p reviewers))
  evaluate_all now p reviewers pol lo hi =
      let (chosen, rest, o, e, perm, n, missing, reviews, decided) =
        evaluate_lem sorter before sort_strings record_hash now p reviewers pol hi
          (omega (arith, lo, hi)) in
      let none_left : rest ≡ [] =
        length-zero rest (omega (arith, n, lo, length-append chosen rest, length-Perm perm)) in
      let all_asked : Perm chosen reviewers =
        subst (λ l. Perm l reviewers) (ap (λ l. chosen ++ l) none_left ∙ append-nil chosen) perm in
      (o, e, decided ∙ rw (missing, reviews) refl ∙ verdict-Perm p pol chosen reviewers all_asked)

pub seats_wanted-for_workload :
    {Float : Type 0} (id title digest : String) (f : Facts Float)
    → let n = seats_wanted default_policy (for_workload id title digest f).risk_class in
      (3 ≤ n) × (n ≤ 5)
unfolding seats_wanted for_workload risk_of
seats_wanted-for_workload id title digest f =
    elim (Bool-cases (lt64 2000 f.items || le64 3 f.redundancy || str_eq f.model_class "")) [
      | inl e ↦ rw e (omega arith, omega arith)
      | inr e ↦ rw e (omega arith, omega arith)
    ]

module _ {Float : Type 0} (prices : Prices Float) (sorter : Sorter (Reviewer (Facts Float)))
    (before : String → String → String → Bool) (sort_strings : List String → List String)
    (record_hash : String
      → String
      → String
      → String
      → List String
      → List String
      → List String
      → String) where
  -- Without a model, the Council blocks a workload exactly when its parameters are out of bounds and its
  -- price is not positive, both at once; it approves one that is in bounds, has a positive price that is
  -- not too low, and is neither a large batch on one community device nor a spot workload with threefold
  -- redundancy; and to any other its decision is conditional. The order of the seats does not matter.
  pub evaluate-built_in :
      (now : ℕ) (id title digest : String) (f : Facts Float)
      → (o : Outcome) × (evaluate sorter before sort_strings record_hash now
            (for_workload id title digest f)
            (built_in prices)
            default_policy
          ≡ some o)
        × (o.decision ≡ built_in_decision prices f)
  unfolding for_workload
  evaluate-built_in now id title digest f =
      let p = for_workload id title digest f in
      let (lo, hi) = seats_wanted-for_workload id title digest f in
      let (o, e, d) =
        evaluate_all sorter before sort_strings record_hash now p (built_in prices) default_policy
          lo (omega (arith, hi)) in
      (o, e, d ∙ verdict-built_in prices p)
