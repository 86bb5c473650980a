-- ===== src/Council.antt =====
-- coordinator/internal/council/evaluate.go: the policy that Evaluate applies to the votes of its
-- reviewers. The order that SHA-256 gives to the seats, the stable sort, the sort of strings and the
-- hash of the record are parameters; a reviewer's answer is a function, `none` its error. The
-- confidence of a review, a float that the policy does not read, is left out.
pub mod Verdict
pub mod Plurality
pub mod Ledger
pub mod Seats
pub mod Runs
pub mod Record
mod Tests
use shared_compute.Common.{
  ℕ, suc, ◌+◌, ◌≤◌, String, Bool, true, false, not, ◌&&◌, ◌||◌, Option, none, some, List, [], ◌∷◌,
  ◌++◌, map, length, take, select, ltb, leb, str_eq, ◌==◌, if◌then◌else◌,
}
use shared_compute.Common.Int64.{Int64, lt64, le64, is_neg}
use shared_compute.Common.Dict
use shared_compute.Common.Dict.{Dict, StringSet}
use shared_compute.Common.Sort.{Sorter}

abbrev pub approve : String
approve = "APPROVE"

abbrev pub conditional : String
conditional = "CONDITIONAL"

abbrev pub block : String
block = "BLOCK"

abbrev pub high : String
high = "HIGH"

abbrev pub critical : String
critical = "CRITICAL"

pub record Proposal (Facts : Type 0) : Type 0 where
  pub id : String
  pub title : String
  pub risk_class : String
  pub facts : Facts
  pub source_digest : String

pub record Review : Type 0 where
  pub seat : String
  pub role : String
  pub decision : String
  pub severity : String
  pub attack_scenarios : List String
  pub required_controls : List String
  pub note : String

pub record Reviewer (Facts : Type 0) : Type 0 where
  pub seat : String
  pub role : String
  pub review : Proposal Facts → Option Review

pub record Policy : Type 0 where
  pub normal : Int64
  pub high : Int64
  pub critical : Int64
  pub critical_blocks : Int64
  pub high_blocks : Int64

abbrev pub default_policy : Policy
default_policy = record {
  normal = 3;
  high = 5;
  critical = 10;
  critical_blocks = 2;
  high_blocks = 2;
}

pub record Outcome : Type 0 where
  pub proposal_id : String
  pub risk_class : String
  pub decision : String
  pub reviews : List Review
  pub required_controls : List String
  pub dissent : List Review
  pub missing : List String
  pub audit_hash : String
  pub evaluated_at : ℕ

-- A nil outcome is `none`.
unfoldable pub acceptable : Option Outcome → Bool
acceptable none = false
acceptable (some o) = not (str_eq o.decision block)

pub seats_wanted : Policy → String → Int64
seats_wanted pol risk =
    if str_eq risk "security_critical"
    then pol.critical
    else if str_eq risk "high"
    then pol.high
    else pol.normal

-- The loop over the selected reviewers: the reviews and the seats that are missing.
pub record Votes : Type 0 where
  pub reviews : List Review
  pub missing : List String

pub signed : {Facts : Type 0} → Reviewer Facts → Review → Review
signed rv r = record r {
  seat = rv.seat;
  role = rv.role;
  decision = if str_eq r.decision "" then conditional else r.decision;
}

pub add_vote : {Facts : Type 0} → Reviewer Facts → Option Review → Votes → Votes
unfolding signed
add_vote rv none v = record v { missing = v.missing ++ rv.seat ∷ [] }
add_vote rv (some r) v = record v { reviews = v.reviews ++ signed rv r ∷ [] }

pub collect : {Facts : Type 0} → Proposal Facts → List (Reviewer Facts) → Votes → Votes
unfolding add_vote
collect p [] v = v
collect p (rv ∷ rvs) v = collect p rvs (add_vote rv (rv.review p) v)

-- The counters of the blocks.
pub record Blocks : Type 0 where
  pub blocks : ℕ
  pub critical_blocks : ℕ
  pub high_blocks : ℕ

pub count_blocks : List Review → Blocks → Blocks
count_blocks [] b = b
count_blocks (r ∷ rs) b =
    let next : Blocks = record {
      blocks = b.blocks + 1;
      critical_blocks =
          if str_eq r.severity critical then b.critical_blocks + 1 else b.critical_blocks;
      high_blocks =
          if str_eq r.severity high || str_eq r.severity critical
          then b.high_blocks + 1
          else b.high_blocks;
    } in
    count_blocks rs (if not (str_eq r.decision block) then b else next)

-- The default case: CONDITIONAL at the first vote that does not approve.
pub weigh : List Review → String
weigh [] = approve
weigh (r ∷ rs) =
    let rest = weigh rs in if not (str_eq r.decision approve) then conditional else rest

pub decide : Policy → Votes → String
unfolding count_blocks weigh
decide pol v =
    let b = count_blocks v.reviews (record { blocks = 0; critical_blocks = 0; high_blocks = 0 }) in
    if ltb 0 (length v.missing)
    then block
    else if le64 pol.critical_blocks b.critical_blocks
    then block
    else if le64 pol.high_blocks b.high_blocks
    then block
    else weigh v.reviews

add_controls : List String → StringSet → StringSet
add_controls [] s = s
add_controls (c ∷ cs) s = add_controls cs (Dict.put s c tt)

pub all_controls : List Review → StringSet → StringSet
unfolding add_controls
all_controls [] s = s
all_controls (r ∷ rs) s = all_controls rs (add_controls r.required_controls s)

abbrev pub or_none : Option ℕ → ℕ
or_none none = 0
or_none (some n) = n

pub count_votes : List Review → Dict ℕ → Dict ℕ
count_votes [] counts = counts
count_votes (r ∷ rs) counts =
    count_votes rs (Dict.put counts r.decision (or_none (Dict.get counts r.decision) + 1))

-- The loop over the counts, whose order Go leaves open: the list's is any.
pub plurality_of : Dict ℕ → List (String × ℕ) → String → String
plurality_of counts [] best = best
plurality_of counts ((d, n) ∷ rest) best =
    plurality_of counts rest (if ltb (or_none (Dict.get counts best)) n then d else best)

pub plurality : List Review → String
unfolding count_votes plurality_of
plurality rs = let counts = count_votes rs [] in plurality_of counts counts approve

module _ {Facts : Type 0} (sorter : Sorter (Reviewer Facts))
    (before : String → String → String → Bool) (sort_strings : List String → List String)
    (record_hash : String
      → String
      → String
      → String
      → List String
      → List String
      → List String
      → String) where
  -- The first seats in the order of hash(proposal, seat); `none` is the panic on a negative count.
  pub selected : Policy → Proposal Facts → List (Reviewer Facts) → Option (List (Reviewer Facts))
  unfolding seats_wanted
  selected pol p reviewers =
      let asked = seats_wanted pol p.risk_class in
      let want = if lt64 (length reviewers) asked then length reviewers else asked in
      let ranked = sorter.sort (λ a b. before p.id a.seat b.seat) reviewers in
      if is_neg want then none else some (take want ranked)

  pub outcome : ℕ → Policy → Proposal Facts → List (Reviewer Facts) → Outcome
  unfolding collect decide all_controls plurality
  outcome now pol p chosen =
      let v = collect p chosen (record { reviews = []; missing = [] }) in
      let decision = decide pol v in
      let controls = sort_strings (map (λ e. e.0) (all_controls v.reviews [])) in
      record {
        proposal_id = p.id;
        risk_class = p.risk_class;
        decision = decision;
        reviews = v.reviews;
        required_controls = controls;
        dissent = select (λ r. not (str_eq r.decision (plurality v.reviews))) v.reviews;
        missing = v.missing;
        audit_hash =
            record_hash p.id p.source_digest p.risk_class decision (map (λ r. r.seat) chosen)
              v.missing controls;
        evaluated_at = now;
      }

  abbrev pub of_selected :
      ℕ → Policy → Proposal Facts → Option (List (Reviewer Facts)) → Option Outcome
  of_selected now pol p none = none
  of_selected now pol p (some chosen) = some (outcome now pol p chosen)

  pub evaluate : ℕ → Proposal Facts → List (Reviewer Facts) → Policy → Option Outcome
  unfolding selected outcome
  evaluate now p reviewers pol = of_selected now pol p (selected pol p reviewers)
