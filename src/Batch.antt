-- ===== src/Batch.antt =====
-- coordinator/internal/batch/batch.go: the spreading of items over providers and the summary, with
-- chunkItems and mergeSummary of coordinator/internal/api/workloads.go. The candidates of a batch
-- are known by their ids; the text of an item's answer and its other data, which the code only
-- passes on, are the opaque `Content`.
pub mod Spread
pub mod Totals
pub mod Chunks
mod Tests
use shared_compute.Common.{
  ℕ, suc, ◌+◌, ◌-◌, String, Bool, true, false, not, ◌&&◌, ◌||◌, Option, none, some, List, [], ◌∷◌,
  ◌++◌, length, take, drop, leb, ltb, str_eq, ◌==◌, if◌then◌else◌,
}
use shared_compute.Common.Int64.{Int64, add64, sub64, lt64}
use shared_compute.Common.Dict
use shared_compute.Common.Dict.{Dict}

abbrev pub count_of : Dict Int64 → String → Int64
count_of m id = elim (Dict.get m id) [ none ↦ 0 | some n ↦ n ]

-- The two maps that choose and release share.
pub record Load : Type 0 where
  pub inflight : Dict Int64
  pub assigned : Dict Int64

-- p is better than best: fewer in flight, or as many and fewer assigned.
pub lighter : Load → String → String → Bool
lighter l p best =
    let bi = count_of l.inflight best in
    let pi = count_of l.inflight p in
    lt64 pi bi || ((pi == bi) && lt64 (count_of l.assigned p) (count_of l.assigned best))

pub best_of : Load → String → List String → String
unfolding lighter
best_of l best [] = best
best_of l best (p ∷ ps) = best_of l (if lighter l p best then p else best) ps

-- The candidates are `c` and `cs`: Eligible returns at least one.
pub choose : String → List String → Load → Load × String
unfolding best_of
choose c cs l =
    let best = best_of l c cs in
    (
      record {
        inflight = Dict.put l.inflight best (add64 (count_of l.inflight best) 1);
        assigned = Dict.put l.assigned best (add64 (count_of l.assigned best) 1);
      },
      best,
    )

pub release : String → Load → Load
release p l = record l { inflight = Dict.put l.inflight p (sub64 (count_of l.inflight p) 1) }

pub record ItemResult (Content : Type 0) : Type 0 where
  pub index : Int64
  pub content : Content
  pub prompt_tokens : Int64
  pub completion_tokens : Int64
  pub total_tokens : Int64
  pub finish_reason : String
  pub provider_id : String
  pub provider_pk : String
  pub trust_tier : String
  pub job_id : String
  pub err_code : String

pub record Summary (Content : Type 0) : Type 0 where
  pub items : List (ItemResult Content)
  pub ok : Int64
  pub failed : Int64
  pub fanout : Int64
  pub providers : Dict Int64
  pub prompt_tokens : Int64
  pub completion_tokens : Int64
  pub concurrency : Int64
  pub wall_ms : Int64

add_counts : Dict Int64 → Dict Int64 → Dict Int64
add_counts [] dst = dst
add_counts ((id, n) ∷ src) dst = add_counts src (Dict.put dst id (add64 (count_of dst id) n))

module _ {Content : Type 0} where
  pub add_result : ItemResult Content → Summary Content → Summary Content
  add_result r s =
      let providers =
        if not (str_eq r.provider_id "")
        then Dict.put s.providers r.provider_id (add64 (count_of s.providers r.provider_id) 1)
        else s.providers in
      if not (str_eq r.err_code "")
      then record s { providers = providers; failed = add64 s.failed 1 }
      else record s {
        providers = providers;
        ok = add64 s.ok 1;
        prompt_tokens = add64 s.prompt_tokens r.prompt_tokens;
        completion_tokens = add64 s.completion_tokens r.completion_tokens;
      }

  pub add_results : List (ItemResult Content) → Summary Content → Summary Content
  unfolding add_result
  add_results [] s = s
  add_results (r ∷ rs) s = add_results rs (add_result r s)

  pub summarize : List (ItemResult Content) → Int64 → Int64 → Summary Content
  unfolding add_results
  summarize results workers wall_ms =
      let s = add_results results (record {
        items = results;
        ok = 0;
        failed = 0;
        fanout = 0;
        providers = [];
        prompt_tokens = 0;
        completion_tokens = 0;
        concurrency = workers;
        wall_ms = wall_ms;
      }) in
      record s { fanout = length s.providers }

  shifted : Int64 → List (ItemResult Content) → List (ItemResult Content)
  shifted offset [] = []
  shifted offset (it ∷ its) = record it { index = add64 it.index offset } ∷ shifted offset its

  -- dst after mergeSummary.
  unfoldable pub merge_summary : Summary Content → Summary Content → Int64 → Summary Content
  unfolding shifted add_counts
  merge_summary dst src offset = record dst {
    items = dst.items ++ shifted offset src.items;
    providers = add_counts src.providers dst.providers;
    ok = add64 dst.ok src.ok;
    failed = add64 dst.failed src.failed;
    prompt_tokens = add64 dst.prompt_tokens src.prompt_tokens;
    completion_tokens = add64 dst.completion_tokens src.completion_tokens;
    concurrency = if lt64 dst.concurrency src.concurrency then src.concurrency else dst.concurrency;
  }

-- The loop of chunkItems over what is left from `i` on; on fuel, which the length of the items is
-- enough of for a positive size.
pub chunks {ℓ} : {A : Type ℓ} → ℕ → ℕ → List A → List (List A)
chunks ℕ.zero size items = []
chunks (suc fuel) size [] = []
chunks (suc fuel) size (x ∷ items) =
    let rest = chunks fuel size (drop size (x ∷ items)) in take size (x ∷ items) ∷ rest

pub chunk_items {ℓ} : {A : Type ℓ} → ℕ → List A → List (List A)
unfolding chunks
chunk_items size items =
    if leb (length items) size then items ∷ [] else chunks (length items) size items
