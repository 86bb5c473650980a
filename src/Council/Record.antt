-- ===== src/Council/Record.antt =====
-- coordinator/internal/council/evaluate.go: the public record of an outcome, as RecordWorkloadDecision
-- fills it in: the counts of the votes, the worst severity and the dissent. The digests of the roster and
-- of the constitution, the short hash and Unix time are parameters.
mod Tests
pub mod Counts
use Prim.Native.String.{◌++◌ as str_append}
use shared_compute.Common.{
  ℕ, ◌+◌, String, Bool, List, [], ◌∷◌, map, length, ltb, str_eq, if◌then◌else◌,
}
use shared_compute.Council.{Review, Outcome, approve, conditional, block, high, critical}
use shared_compute.Council.Ledger.{PublicDecision, record_decision}
use shared_compute.Council.Seats.{low, medium}

abbrev pub public_record_protocol : String
public_record_protocol = "ayni-council-public-record-v1"

-- The map of the votes, which always has these four keys.
pub record VoteCounts : Type 0 where
  pub approve : ℕ
  pub conditional : ℕ
  pub block : ℕ
  pub missing : ℕ

pub record DissentRow : Type 0 where
  pub seat : String
  pub decision : String
  pub severity : String
  pub summary : String

-- A public record without the two hashes of the chain.
pub record DecisionBody : Type 0 where
  pub protocol : String
  pub decision_id : String
  pub proposal_id : String
  pub title : String
  pub risk_class : String
  pub decision : String
  pub severity : String
  pub votes : VoteCounts
  pub required_controls : List String
  pub dissent : List DissentRow
  pub actions : List String
  pub evidence_digests : List String
  pub roster_digest : String
  pub constitution_digest : String
  pub published_at : ℕ

-- One round of the loop over the reviews; a decision of no case counts for none.
unfoldable pub count_vote : Review → VoteCounts → VoteCounts
count_vote r v =
    if str_eq r.decision approve
    then record v { approve = v.approve + 1 }
    else if str_eq r.decision conditional
    then record v { conditional = v.conditional + 1 }
    else if str_eq r.decision block
    then record v { block = v.block + 1 }
    else v

unfoldable pub tally : List Review → VoteCounts → VoteCounts
unfolding count_vote
tally [] v = v
tally (r ∷ rs) v = tally rs (count_vote r v)

unfoldable pub sev_rank : String → ℕ
sev_rank s =
    if str_eq s critical then 3 else if str_eq s high then 2 else if str_eq s medium then 1 else 0

unfoldable pub worse : String → String → String
worse sev other = if ltb (sev_rank sev) (sev_rank other) then other else sev

unfoldable pub worst_severity : List Review → String → String
worst_severity [] sev = sev
worst_severity (r ∷ rs) sev = worst_severity rs (worse sev r.severity)

abbrev pub dissent_row : Review → DissentRow
dissent_row r = record {
  seat = r.seat;
  decision = r.decision;
  severity = r.severity;
  summary = r.note;
}

-- `digests` holds what the record takes from the rest of the program.
pub record Digests : Type 0 where
  pub roster_digest : String
  pub constitution_digest : String
  pub short_hash : String → String
  pub unix : ℕ → ℕ

unfoldable pub decision_body : Digests → Outcome → String → DecisionBody
unfolding tally worst_severity
decision_body digests o title = record {
  protocol = public_record_protocol;
  decision_id = str_append "wl-" (digests.short_hash o.audit_hash);
  proposal_id = o.proposal_id;
  title = title;
  risk_class = o.risk_class;
  decision = o.decision;
  severity = worst_severity o.reviews low;
  votes =
      tally o.reviews
        (record { approve = 0; conditional = 0; block = 0; missing = length o.missing });
  required_controls = o.required_controls;
  dissent = map dissent_row o.dissent;
  actions = [];
  evidence_digests = o.audit_hash ∷ [];
  roster_digest = digests.roster_digest;
  constitution_digest = digests.constitution_digest;
  published_at = digests.unix o.evaluated_at;
}

-- RecordWorkloadDecision without a persister, on the ledger `recent`.
unfoldable pub record_workload_decision :
    Digests
    → (DecisionBody → String → String)
    → List DecisionBody
    → Outcome
    → String
    → List (PublicDecision DecisionBody)
    → List (PublicDecision DecisionBody)
unfolding decision_body
record_workload_decision digests digest demo o title recent =
    record_decision digest demo recent (decision_body digests o title)
