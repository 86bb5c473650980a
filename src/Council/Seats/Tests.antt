-- ===== src/Council/Seats/Tests.antt =====
-- Workloads that the seats judge, and the theorems at them.
use shared_compute.Common.{ℕ, ◌≡◌, refl, false, none, some, [], ◌∷◌, ◌++◌, ◌==◌}
use shared_compute.Common.Sort.{Sorter, insertion_sorter}
use shared_compute.Council.{
  Proposal, Review, Reviewer, Outcome, block, conditional, default_policy, evaluate,
}
use shared_compute.Council.Seats.{
  Facts, Prices, built_in, for_workload, out_of_bounds, risk_of, risk_high,
}
use shared_compute.Council.Seats.BuiltIn.{built_in_decision, evaluate-built_in}
use shared_compute.Council.Seats.Model.{
  Answer, IsSilent, undecided, Library, parse_review, from_brace, to_brace, index_byte,
  last_index_byte, checked, new_model_reviewer, evaluate-silent_model,
}

-- A price in millionths of a dollar.
abbrev prices : Prices ℕ
prices = record { le_zero = λ price. price == 0; too_low = λ price tokens. price == 1 }

-- Ten thousand items, which is out of bounds.
abbrev huge : Facts ℕ
huge = record {
  model = "m";
  model_class = "small";
  tier = "device_attested";
  items = 10_000;
  prompt_tokens = 10;
  completion_tokens = 10;
  redundancy = 1;
  spot = false;
  price_usd = 500;
  eta_seconds = 60;
}

abbrev sorter : Sorter (Reviewer (Facts ℕ))
sorter = insertion_sorter (Reviewer (Facts ℕ))

abbrev proposal : Proposal (Facts ℕ)
proposal = for_workload "w" "t" "d" huge

evaluate-built_in_example :
    (o : Outcome) × (evaluate sorter
        (λ id a b. false)
        (λ l. l)
        (λ a b c d e f g. "hash")
        9
        proposal
        (built_in prices)
        default_policy
      ≡ some o)
    × (o.decision ≡ built_in_decision prices huge)
evaluate-built_in_example =
    evaluate-built_in prices sorter (λ id a b. false) (λ l. l) (λ a b c d e f g. "hash") 9 "w" "t"
      "d" huge

-- Out of bounds alone is not blocked.
huge_is_conditional : built_in_decision prices huge ≡ conditional
unfolding out_of_bounds
huge_is_conditional = refl

-- An answer without one of the decisions.
abbrev shrug : Answer
shrug = record {
  decision = "MAYBE";
  severity = "LOW";
  attack_scenarios = [];
  required_controls = [];
}

-- A model that shrugs when it is asked; an answer with more than one byte is a block.
abbrev answers : Library (Facts ℕ)
answers = record {
  trim_space = λ s. s;
  unmarshal = λ s. elim s [
    | [] ↦ none
    | c ∷ [] ↦ some shrug
    | c ∷ d ∷ cs ↦ some (record {
      decision = "BLOCK";
      severity = "LOUD";
      attack_scenarios = "a" ∷ [];
      required_controls = [];
    })
  ];
  to_upper = λ s. s;
  ask = λ api model_id p. some (b'{' ∷ []);
}

red_team-IsSilent : IsSilent answers "openai" "model" proposal
red_team-IsSilent =
    undecided (b'{' ∷ []) shrug refl (unfold from_brace to_brace index_byte last_index_byte in refl)
      refl

huge_risk : risk_of huge ≡ risk_high
unfolding risk_of
huge_risk = refl

evaluate-silent_model_example :
    (rv : Reviewer (Facts ℕ)) × (o : Outcome) × (new_model_reviewer answers "red_team"
        "Red Team Director" "openai" "key" "model"
      ≡ some rv)
    × (evaluate sorter
          (λ id a b. false)
          (λ l. l)
          (λ a b c d e f g. "hash")
          9
          proposal
          (built_in prices ++ (rv ∷ []))
          default_policy
        ≡ some o)
    × (o.decision ≡ block)
evaluate-silent_model_example =
    evaluate-silent_model prices sorter (λ id a b. false) (λ l. l) (λ a b c d e f g. "hash") answers
      "red_team" "Red Team Director" "openai" "key" "model" 9 "w" "t" "d" huge refl refl refl
      red_team-IsSilent huge_risk

abbrev vote : Review
vote = record {
  seat = "";
  role = "";
  decision = "BLOCK";
  severity = "MEDIUM";
  attack_scenarios = "a" ∷ [];
  required_controls = [];
  note = "";
}

voted : parse_review answers (b'x' ∷ b'{' ∷ b'}' ∷ b'y' ∷ []) ≡ some vote
unfolding parse_review from_brace to_brace index_byte last_index_byte checked
voted = refl
