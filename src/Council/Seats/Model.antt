-- ===== src/Council/Seats/Model.antt =====
-- coordinator/internal/council/evaluate.go: the seat of a model, from NewModelReviewer to parseReview.
-- The HTTP call, trimming, JSON and the case of letters are parameters; a text is its bytes where the
-- code cuts it. The confidence, a float that the policy does not read, is left out.
use shared_compute.Common.{
  ℕ, ◌+◌, ◌-◌, ◌<◌, ◌≤◌, ◌≡◌, ◌⊎◌, refl, ◌∙◌, String, Bool, true, false, not, ◌&&◌, ◌||◌, Option,
  none, some, List, [], ◌∷◌, ◌++◌, length, take, drop, ltb, ◌==◌, str_eq, if◌then◌else◌, Bool-cases,
  inl, inr, arith,
}
use shared_compute.Common.Sort.{Sorter}
use shared_compute.Council.{
  Proposal, Review, Reviewer, Outcome, approve, conditional, block, high, critical, default_policy,
  evaluate, seats_wanted,
}
use shared_compute.Council.Seats.{
  Facts, Prices, low, medium, risk_high, review, built_in, for_workload, risk_of,
}
use shared_compute.Council.Seats.BuiltIn.{evaluate_all}

-- What a model's answer holds.
pub record Answer : Type 0 where
  pub decision : String
  pub severity : String
  pub attack_scenarios : List String
  pub required_controls : List String

-- `ask` is the call of a model interface that the code knows, with the proposal, `none` for its error.
pub record Library (Facts : Type 0) : Type 0 where
  pub trim_space : List ℕ → List ℕ
  pub unmarshal : List ℕ → Option Answer
  pub to_upper : String → String
  pub ask : String → String → Proposal Facts → Option (List ℕ)

-- strings.IndexByte and strings.LastIndexByte.
unfoldable pub index_byte : ℕ → List ℕ → Option ℕ
index_byte c [] = none
index_byte c (b ∷ bs) =
    let rest = index_byte c bs in
    if b == c then some 0 else elim rest [ none ↦ none | some i ↦ some (i + 1) ]

unfoldable pub last_index_byte : ℕ → List ℕ → Option ℕ
last_index_byte c [] = none
last_index_byte c (b ∷ bs) = elim (last_index_byte c bs) [
  | some i ↦ some (i + 1)
  | none ↦ if b == c then some 0 else none
]

unfoldable pub from_brace : List ℕ → List ℕ
unfolding index_byte
from_brace s = elim (index_byte b'{' s) [ none ↦ s | some i ↦ if ltb 0 i then drop i s else s ]

unfoldable pub to_brace : List ℕ → List ℕ
unfolding last_index_byte
to_brace s = elim (last_index_byte b'}' s) [
  | none ↦ s
  | some i ↦ if ltb i (length s - 1) then take (i + 1) s else s
]

abbrev pub is_decision : String → Bool
is_decision s = str_eq s approve || str_eq s conditional || str_eq s block

abbrev pub is_severity : String → Bool
is_severity s = str_eq s low || str_eq s medium || str_eq s high || str_eq s critical

-- An unknown severity is MEDIUM.
abbrev pub severity_of : String → String
severity_of sev =
    if not (str_eq sev low)
      && not (str_eq sev medium)
      && not (str_eq sev high)
      && not (str_eq sev critical)
    then medium
    else sev

severity_of-is_severity : (sev : String) → is_severity (severity_of sev) ≡ true
severity_of-is_severity sev =
    elim (Bool-cases (
      not (str_eq sev low)
      && not (str_eq sev medium)
      && not (str_eq sev high)
      && not (str_eq sev critical))) [ inl e ↦ rw e refl | inr e ↦ rw e (ground (arith, e)) ]

-- What a model can vote.
pub record IsVote (r : Review) : Type 0 where
  pub decision : is_decision r.decision ≡ true
  pub severity : is_severity r.severity ≡ true
  pub attacks : length r.attack_scenarios ≤ 20
  pub controls : length r.required_controls ≤ 20

module _ {Facts : Type 0} (lib : Library Facts) where
  unfoldable pub checked : Option Answer → Option Review
  checked none = none
  checked (some d) =
      let dec = lib.to_upper d.decision in
      let sev = lib.to_upper d.severity in
      if not (str_eq dec approve) && not (str_eq dec conditional) && not (str_eq dec block)
      then none
      else if ltb 20 (length d.attack_scenarios) || ltb 20 (length d.required_controls)
      then none
      else some (review dec (severity_of sev) d.attack_scenarios d.required_controls "")

  unfoldable pub parse_review : List ℕ → Option Review
  unfolding from_brace to_brace checked
  parse_review s = checked (lib.unmarshal (to_brace (from_brace (lib.trim_space s))))

  unfoldable pub read_answer : Option (List ℕ) → Option Review
  unfolding parse_review
  read_answer none = none
  read_answer (some raw) = parse_review raw

  unfoldable pub model_review : String → String → Proposal Facts → Option Review
  unfolding read_answer
  model_review api model_id p =
      if str_eq api "anthropic" || str_eq api "openai"
      then read_answer (lib.ask api model_id p)
      else none

  -- `none` is the nil reviewer.
  unfoldable pub new_model_reviewer :
      String → String → String → String → String → Option (Reviewer Facts)
  unfolding model_review
  new_model_reviewer seat role api key model_id =
      if str_eq api "" || str_eq key "" || str_eq model_id ""
      then none
      else some (record { seat = seat; role = role; review = model_review api model_id })

  checked-IsVote : (o : Option Answer) (r : Review) → checked o ≡ some r → IsVote r
  unfolding checked
  checked-IsVote none r h = absurd (cc h)
  checked-IsVote (some d) r h = record {
    decision = ground (arith, h);
    severity =
        let same : r.severity ≡ severity_of (lib.to_upper d.severity) = ground (arith, h) in
        rw same (severity_of-is_severity (lib.to_upper d.severity));
    attacks = ground (arith, h);
    controls = ground (arith, h);
  }

  -- What a model answers is a vote only with one of the three decisions, one of the four severities and at
  -- most twenty attack scenarios and twenty controls.
  pub parse_review-IsVote : (s : List ℕ) (r : Review) → parse_review s ≡ some r → IsVote r
  unfolding parse_review
  parse_review-IsVote s r h =
      checked-IsVote (lib.unmarshal (to_brace (from_brace (lib.trim_space s)))) r h

-- Why a model has no vote on a proposal.
pub data IsSilent {Facts : Type 0} (lib : Library Facts) (api model_id : String)
    (p : Proposal Facts) : Type 0 where
  unknown :
      str_eq api "anthropic" ≡ false → str_eq api "openai" ≡ false → IsSilent lib api model_id p
  unasked : lib.ask api model_id p ≡ none → IsSilent lib api model_id p
  garbled :
      (raw : List ℕ)
      → lib.ask api model_id p ≡ some raw
      → lib.unmarshal (to_brace (from_brace (lib.trim_space raw))) ≡ none
      → IsSilent lib api model_id p
  undecided :
      (raw : List ℕ) (d : Answer)
      → lib.ask api model_id p ≡ some raw
      → lib.unmarshal (to_brace (from_brace (lib.trim_space raw))) ≡ some d
      → is_decision (lib.to_upper d.decision) ≡ false
      → IsSilent lib api model_id p
  oversized :
      (raw : List ℕ) (d : Answer)
      → lib.ask api model_id p ≡ some raw
      → lib.unmarshal (to_brace (from_brace (lib.trim_space raw))) ≡ some d
      → (20 < length d.attack_scenarios) ⊎ (20 < length d.required_controls)
      → IsSilent lib api model_id p

module _ {Facts : Type 0} (lib : Library Facts) where
  checked-undecided :
      (d : Answer) → is_decision (lib.to_upper d.decision) ≡ false → checked lib (some d) ≡ none
  unfolding checked
  checked-undecided d h = ground (arith, h)

  checked-oversized :
      (d : Answer)
      → (20 < length d.attack_scenarios) ⊎ (20 < length d.required_controls)
      → checked lib (some d) ≡ none
  unfolding checked
  checked-oversized d h = ground (arith, h)

  answer-silent :
      (api model_id : String) (p : Proposal Facts)
      → read_answer lib (lib.ask api model_id p) ≡ none
      → model_review lib api model_id p ≡ none
  unfolding model_review
  answer-silent api model_id p h =
      elim (Bool-cases (str_eq api "anthropic" || str_eq api "openai")) [
        | inl e ↦ rw e h
        | inr e ↦ rw e refl
      ]

  model_review-silent :
      (api model_id : String) (p : Proposal Facts)
      → IsSilent lib api model_id p
      → model_review lib api model_id p ≡ none
  model_review-silent api model_id p (unknown a b) = unfold model_review in rw (a, b) refl
  model_review-silent api model_id p (unasked e) =
      answer-silent api model_id p (rw e (unfold read_answer in refl))
  model_review-silent api model_id p (garbled raw e u) =
      answer-silent api model_id p
        (rw e (unfold read_answer parse_review in rw u (unfold checked in refl)))
  model_review-silent api model_id p (undecided raw d e u h) =
      answer-silent api model_id p
        (rw e (unfold read_answer parse_review in rw u (checked-undecided d h)))
  model_review-silent api model_id p (oversized raw d e u h) =
      answer-silent api model_id p
        (rw e (unfold read_answer parse_review in rw u (checked-oversized d h)))

module _ {Float : Type 0} (prices : Prices Float) (sorter : Sorter (Reviewer (Facts Float)))
    (before : String → String → String → Bool) (sort_strings : List String → List String)
    (record_hash : String
      → String
      → String
      → String
      → List String
      → List String
      → List String
      → String) where
  seats_wanted-high :
      (id title digest : String) (f : Facts Float)
      → risk_of f ≡ risk_high
      → seats_wanted default_policy (for_workload id title digest f).risk_class ≡ 5
  unfolding seats_wanted for_workload
  seats_wanted-high id title digest f h = rw h refl

  -- One seat without a vote blocks a workload of high risk.
  evaluate-missing :
      (rv : Reviewer (Facts Float)) (now : ℕ) (id title digest : String) (f : Facts Float)
      → rv.review (for_workload id title digest f) ≡ none
      → risk_of f ≡ risk_high
      → (o : Outcome) × (evaluate sorter before sort_strings record_hash now
            (for_workload id title digest f)
            (built_in prices ++ (rv ∷ []))
            default_policy
          ≡ some o)
        × (o.decision ≡ block)
  evaluate-missing rv now id title digest f silenced risk =
      let p = for_workload id title digest f in
      let n = seats_wanted-high id title digest f risk in
      let (o, e, d) =
        evaluate_all sorter before sort_strings record_hash now p (built_in prices ++ (rv ∷ []))
          default_policy (omega (arith, n)) (omega (arith, n)) in
      (o, e, d ∙ rw silenced refl)

  -- On a workload of high risk the Council blocks where the seat of a model that is set up cannot be
  -- asked, or its answer is no JSON, has none of the three decisions, or lists more than twenty scenarios
  -- or controls, whatever the seats without a model say.
  pub evaluate-silent_model :
      (lib : Library (Facts Float)) (seat role api key model_id : String) (now : ℕ)
      (id title digest : String) (f : Facts Float)
      → str_eq api "" ≡ false
      → str_eq key "" ≡ false
      → str_eq model_id "" ≡ false
      → IsSilent lib api model_id (for_workload id title digest f)
      → risk_of f ≡ risk_high
      → (rv : Reviewer (Facts Float)) × (o : Outcome) × (new_model_reviewer lib seat role api key
            model_id
          ≡ some rv)
        × (evaluate sorter before sort_strings record_hash now
              (for_workload id title digest f)
              (built_in prices ++ (rv ∷ []))
              default_policy
            ≡ some o)
        × (o.decision ≡ block)
  unfolding new_model_reviewer
  evaluate-silent_model lib seat role api key model_id now id title digest f a k m silent risk =
      let rv : Reviewer (Facts Float) = record {
        seat = seat;
        role = role;
        review = model_review lib api model_id;
      } in
      let missing = model_review-silent lib api model_id (for_workload id title digest f) silent in
      let (o, e, d) = evaluate-missing rv now id title digest f missing risk in
      (rv, o, rw (a, k, m) refl, e, d)
