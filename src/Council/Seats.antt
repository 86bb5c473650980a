-- ===== src/Council/Seats.antt =====
-- coordinator/internal/council/evaluate.go: the proposal of a workload and the three seats that decide
-- without a model, which coordinator/internal/api/server.go gives to Evaluate, and the answer of a model.
-- The price is a float: its two tests are parameters. The hashed id and digest and the title are
-- arguments. A fact stands under its own type, so that toInt gives it back.
pub mod BuiltIn
pub mod Model
mod Tests
use shared_compute.Common.{
  ℕ, ◌+◌, ◌*◌, ◌%◌, String, Bool, true, false, not, ◌&&◌, ◌||◌, Option, none, some, List, [], ◌∷◌,
  str_eq, if◌then◌else◌,
}
use shared_compute.Common.Int64.{Int64, add64, mul64, lt64, le64, is_neg}
use shared_compute.Council.{Proposal, Review, Reviewer, approve, conditional, block, high}

abbrev pub low : String
low = "LOW"

abbrev pub medium : String
medium = "MEDIUM"

abbrev pub risk_normal : String
risk_normal = "normal"

abbrev pub risk_high : String
risk_high = "high"

pub record Facts (Float : Type 0) : Type 0 where
  pub model : String
  pub model_class : String
  pub tier : String
  pub items : Int64
  pub prompt_tokens : Int64
  pub completion_tokens : Int64
  pub redundancy : Int64
  pub spot : Bool
  pub price_usd : Float
  pub eta_seconds : Int64

-- Whether a price is at most zero, and whether it is less than 0.01 for a million of these tokens.
pub record Prices (Float : Type 0) : Type 0 where
  pub le_zero : Float → Bool
  pub too_low : Float → Int64 → Bool

-- Reviews without a seat, which Evaluate puts in.
abbrev pub review : String → String → List String → List String → String → Review
review decision severity attacks controls note = record {
  seat = "";
  role = "";
  decision = decision;
  severity = severity;
  attack_scenarios = attacks;
  required_controls = controls;
  note = note;
}

module _ {Float : Type 0} where
  -- The risk class of ForWorkload.
  pub risk_of : Facts Float → String
  risk_of f =
      if lt64 2000 f.items || le64 3 f.redundancy || str_eq f.model_class ""
      then risk_high
      else risk_normal

  pub for_workload : String → String → String → Facts Float → Proposal (Facts Float)
  unfolding risk_of
  for_workload id title digest f = record {
    id = id;
    title = title;
    risk_class = risk_of f;
    facts = f;
    source_digest = digest;
  }

  unfoldable pub out_of_bounds : Facts Float → Bool
  out_of_bounds f =
      le64 f.items 0
      || is_neg f.completion_tokens
      || is_neg f.prompt_tokens
      || lt64 f.redundancy 1
      || lt64 3 f.redundancy
      || lt64 5000 f.items

  unfoldable pub deterministic_review : Proposal (Facts Float) → Review
  deterministic_review p =
      if out_of_bounds p.facts
      then review block high ("malformed or out-of-bounds workload parameters" ∷ [])
          ("reject workloads outside item/redundancy bounds" ∷ []) "structural bounds check failed"
      else if str_eq p.risk_class risk_high
      then review approve medium []
          ("operator visibility on high-volume / high-redundancy workloads" ∷ [])
          "ordinary allow-listed inference batch; no prompt content in scope"
      else review approve low [] []
          "ordinary allow-listed inference batch; no prompt content in scope"

  unfoldable pub is_lone_batch : Facts Float → Bool
  is_lone_batch f = str_eq f.tier "community" && lt64 1000 f.items && lt64 f.redundancy 2

  unfoldable pub is_redundant_spot : Facts Float → Bool
  is_redundant_spot f = f.spot && le64 3 f.redundancy

  unfoldable pub node_safety_review : Proposal (Facts Float) → Review
  node_safety_review p =
      if is_lone_batch p.facts
      then review conditional medium
          ("one unattested device serving a large batch alone can silently corrupt every item in it"
            ∷ [])
          ("require redundancy >= 2 for community-tier batches over 1000 items" ∷ [])
          "large single-redundancy batch on an unattested tier"
      else if is_redundant_spot p.facts
      then review conditional low []
          ("cap spot redundancy at 2; route anything needing 3x confirmation to on-demand" ∷ [])
          "high redundancy requested on interruptible spot capacity"
      else review approve low [] []
          "device-trust tier and redundancy are proportionate to the workload"

  module _ (prices : Prices Float) where
    -- All tokens of the items, at least one item.
    unfoldable pub total_tokens : Facts Float → Int64
    total_tokens f =
        mul64 (add64 f.completion_tokens f.prompt_tokens) (if lt64 f.items 1 then 1 else f.items)

    unfoldable pub is_underpriced : Facts Float → Bool
    unfolding total_tokens
    is_underpriced f = lt64 0 (total_tokens f) && prices.too_low f.price_usd (total_tokens f)

    unfoldable pub cost_governance_review : Proposal (Facts Float) → Review
    cost_governance_review p =
        if prices.le_zero p.facts.price_usd
        then review block high
            ("a zero or negative quote would run real compute for free, or at negative revenue"
              ∷ [])
            ("reject any quote that doesn't clear the pricing floor" ∷ [])
            "non-positive price on a real workload"
        else if is_underpriced p.facts
        then review conditional medium []
            ("operator review before running a workload priced this far under its token volume"
              ∷ [])
            "price looks too low for the quoted token volume — possible pricing-path bug"
        else review approve low [] [] "price is proportionate to the quoted token volume"

    abbrev pub security_critic : Reviewer (Facts Float)
    security_critic = record {
      seat = "security_critic";
      role = "Chief Security Critic";
      review = λ p. some (deterministic_review p);
    }

    abbrev pub node_safety : Reviewer (Facts Float)
    node_safety = record {
      seat = "node_safety";
      role = "Node and Provider Safety Guardian";
      review = λ p. some (node_safety_review p);
    }

    abbrev pub cost_governance : Reviewer (Facts Float)
    cost_governance = record {
      seat = "cost_governance";
      role = "Cost & Pricing Governance";
      review = λ p. some (cost_governance_review p);
    }

    -- The seats of a server without a model.
    abbrev pub built_in : List (Reviewer (Facts Float))
    built_in = security_critic ∷ node_safety ∷ cost_governance ∷ []
