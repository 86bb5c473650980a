-- ===== src/Store/Rows.antt =====
-- coordinator/internal/store/memory.go: usage rows, the waitlist, feedback with its replies,
-- proposals and workload runs. `fold_eq` is strings.EqualFold.
pub mod Usage
pub mod Runs
use shared_compute.Common.{
  ℕ, ◌+◌, ◌%◌, String, Bool, true, false, not, ◌&&◌, ◌||◌, Option, none, some, List, [], ◌∷◌, ◌++◌,
  map, length, take, select, ltb, ◌==◌, str_eq, if◌then◌else◌,
}
use shared_compute.Common.Int64.{Int64, add64, le64, lt64, eq64, modulus}
use shared_compute.Common.Dict
use shared_compute.Common.Dict.{Dict}
use shared_compute.Common.Sort.{Sorter}
use shared_compute.Store.{
  Mem, UsageEvent, UsageRow, WaitlistEntry, FeedbackEntry, FeedbackReply, WorkloadRun, Proposal,
}

keep_row : UsageRow → Option (List UsageRow) → Option (List UsageRow)
keep_row r none = none
keep_row r (some rs) = some (r ∷ rs)

-- The loop of RecordUsage: the rows with the event added to the row of its key and model.
pub raise_usage : UsageEvent → List UsageRow → Option (List UsageRow)
unfolding keep_row
raise_usage ev [] = none
raise_usage ev (r ∷ rs) =
    let raised =
      record r {
        requests = add64 r.requests 1;
        prompt_tokens = add64 r.prompt_tokens ev.prompt_tokens;
        completion_tokens = add64 r.completion_tokens ev.completion_tokens;
      }
      ∷ rs in
    let rest = keep_row r (raise_usage ev rs) in
    if str_eq r.key_id ev.key_id && str_eq r.model ev.model then some raised else rest

abbrev first_row : UsageEvent → UsageRow
first_row ev = record {
  key_id = ev.key_id;
  model = ev.model;
  requests = 1;
  prompt_tokens = ev.prompt_tokens;
  completion_tokens = ev.completion_tokens;
}

pub add_usage : UsageEvent → Option (List UsageRow) → List UsageRow → List UsageRow
add_usage ev none rows = rows ++ first_row ev ∷ []
add_usage ev (some raised) rows = raised

unfoldable pub record_usage : UsageEvent → Mem → Mem
unfolding add_usage
record_usage ev m = record m {
  usage = add64 m.usage 1;
  usage_rows = add_usage ev (raise_usage ev m.usage_rows) m.usage_rows;
}

unfoldable pub usage_since : Mem → List UsageRow
usage_since m = m.usage_rows

unfoldable pub usage_count : Mem → Int64
usage_count m = m.usage

replace_entry : (String → String → Bool) → WaitlistEntry → List WaitlistEntry → List WaitlistEntry
replace_entry fold_eq e [] = e ∷ []
replace_entry fold_eq e (w ∷ ws) =
    let rest = replace_entry fold_eq e ws in if fold_eq w.email e.email then e ∷ ws else w ∷ rest

unfoldable pub add_waitlist : (String → String → Bool) → WaitlistEntry → Mem → Mem
unfolding replace_entry
add_waitlist fold_eq e m = record m { waitlist = replace_entry fold_eq e m.waitlist }

unfoldable pub add_proposal : Proposal → Mem → Mem
add_proposal p m = record m { proposals = m.proposals ++ p ∷ [] }

-- A zero time is 0.
unfoldable pub add_feedback : ℕ → FeedbackEntry → Mem → Mem
add_feedback now e m = record m {
  feedback =
      m.feedback
      ++ record e {
        id = (length m.feedback + 1) % modulus;
        created_at = if e.created_at == 0 then now else e.created_at;
      }
        ∷ [];
}

pub feedback_since : Mem → List FeedbackEntry
feedback_since m = m.feedback

pub waitlist_since : Mem → List WaitlistEntry
waitlist_since m = m.waitlist

pub proposals_since : Mem → List Proposal
proposals_since m = m.proposals

unfoldable pub feedback_for_user :
    (String → String → Bool) → String → String → Mem → List FeedbackEntry
feedback_for_user fold_eq user_id email m =
    select
      (λ e.
        (not (str_eq user_id "") && str_eq e.user_id user_id)
        || (not (str_eq email "") && fold_eq e.email email))
      m.feedback

abbrev pub make_reply : ℕ → Int64 → String → String → FeedbackEntry → FeedbackReply
make_reply now id author body e = record {
  id = (length e.replies + 1) % modulus;
  feedback_id = id;
  author = author;
  body = body;
  created_at = now;
}

keep_entry :
    FeedbackEntry
    → Option (List FeedbackEntry × FeedbackReply)
    → Option (List FeedbackEntry × FeedbackReply)
keep_entry e none = none
keep_entry e (some (es, r)) = some (e ∷ es, r)

pub reply_to :
    ℕ → Int64 → String → String → List FeedbackEntry → Option (List FeedbackEntry × FeedbackReply)
unfolding keep_entry
reply_to now id author body [] = none
reply_to now id author body (e ∷ es) =
    let r = make_reply now id author body e in
    let rest = keep_entry e (reply_to now id author body es) in
    if eq64 e.id id then some (record e { replies = e.replies ++ r ∷ [] } ∷ es, r) else rest

with_feedback : Mem → Option (List FeedbackEntry × FeedbackReply) → Option (Mem × FeedbackReply)
with_feedback m none = none
with_feedback m (some (es, r)) = some (record m { feedback = es }, r)

-- `none` is the error "feedback not found".
unfoldable pub add_feedback_reply : ℕ → Int64 → String → String → Mem → Option (Mem × FeedbackReply)
unfolding with_feedback
add_feedback_reply now id author body m = with_feedback m (reply_to now id author body m.feedback)

unfoldable pub upsert_run : ℕ → WorkloadRun → Mem → Mem
upsert_run now r m =
    let r' = record r { created_at = if r.created_at == 0 then now else r.created_at } in
    record m { runs = Dict.put m.runs r.id r' }

unfoldable pub get_run : Mem → String → Option WorkloadRun
get_run m id = Dict.get m.runs id

abbrev pub list_limit : Int64 → ℕ
list_limit limit = if le64 limit 0 || lt64 200 limit then 50 else limit

abbrev pub newer : WorkloadRun → WorkloadRun → Bool
newer a b = ltb b.created_at a.created_at

module _ (sorter : Sorter WorkloadRun) where
  unfoldable pub list_runs : String → Int64 → Mem → List WorkloadRun
  list_runs key_id limit m =
      take (list_limit limit)
        (sorter.sort newer (select (λ r. str_eq r.key_id key_id) (map (λ e. e.1) m.runs)))
