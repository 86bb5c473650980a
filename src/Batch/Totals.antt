-- ===== src/Batch/Totals.antt =====
-- The totals of a summary, and of summaries that are merged.
use shared_compute.Common.{
  ℕ, suc, ◌+◌, ◌%◌, ◌<◌, ◌≡◌, Bool, List, [], ◌∷◌, ◌++◌, if◌then◌else◌, str_eq, arith,
}
use shared_compute.Common.Int64.{Int64, modulus}
use shared_compute.Batch.{ItemResult, Summary, add_result, add_results, summarize, merge_summary}

module _ {Content : Type 0} where
  abbrev pub succeeded : ItemResult Content → Bool
  succeeded r = str_eq r.err_code ""

  abbrev pub failures : List (ItemResult Content) → ℕ
  failures [] = 0
  failures (r ∷ rs) = let rest = failures rs in if succeeded r then rest else suc rest

  -- The sum of a column over the results that succeeded.
  abbrev pub total : (ItemResult Content → ℕ) → List (ItemResult Content) → ℕ
  total f [] = 0
  total f (r ∷ rs) = let rest = total f rs in if succeeded r then f r + rest else rest

  -- The four totals, modulo 2 ^ 64.
  pub record Counts (s t : Summary Content) (rs : List (ItemResult Content)) : Type 0 where
    pub oks : t.ok ≡ (s.ok + total (λ r. 1) rs) % modulus
    pub fails : t.failed ≡ (s.failed + failures rs) % modulus
    pub prompts : t.prompt_tokens ≡ (s.prompt_tokens + total (λ r. r.prompt_tokens) rs) % modulus
    pub completions :
        t.completion_tokens ≡ (s.completion_tokens + total (λ r. r.completion_tokens) rs) % modulus

  record IsWords (s : Summary Content) : Type 0 where
    ok_word : s.ok < modulus
    failed_word : s.failed < modulus
    prompt_word : s.prompt_tokens < modulus
    completion_word : s.completion_tokens < modulus

  add_result-IsWords :
      (r : ItemResult Content) (s : Summary Content) → IsWords s → IsWords (add_result r s)
  unfolding add_result
  add_result-IsWords r s w = record {
    ok_word = ground (arith, w.ok_word);
    failed_word = ground (arith, w.failed_word);
    prompt_word = ground (arith, w.prompt_word);
    completion_word = ground (arith, w.completion_word);
  }

  add_results-Counts :
      (rs : List (ItemResult Content)) (s : Summary Content)
      → IsWords s
      → Counts s (add_results rs s) rs
  unfolding add_results add_result
  add_results-Counts [] s w = record {
    oks = omega (arith, w.ok_word);
    fails = omega (arith, w.failed_word);
    prompts = omega (arith, w.prompt_word);
    completions = omega (arith, w.completion_word);
  }
  add_results-Counts (r ∷ rs) s w =
      let next = add_results-Counts rs (add_result r s) (add_result-IsWords r s w) in
      record {
        oks = ground (arith, next.oks);
        fails = ground (arith, next.fails);
        prompts = ground (arith, next.prompts);
        completions = ground (arith, next.completions);
      }

  -- The counts of an empty summary.
  abbrev zeros : Summary Content
  zeros = record {
    items = [];
    ok = 0;
    failed = 0;
    fanout = 0;
    providers = [];
    prompt_tokens = 0;
    completion_tokens = 0;
    concurrency = 0;
    wall_ms = 0;
  }

  total-append :
      (f : ItemResult Content → ℕ) (xs ys : List (ItemResult Content))
      → total f (xs ++ ys) ≡ total f xs + total f ys
  total-append f [] ys = omega arith
  total-append f (x ∷ xs) ys = ground (arith, total-append f xs ys)

  failures-append :
      (xs ys : List (ItemResult Content)) → failures (xs ++ ys) ≡ failures xs + failures ys
  failures-append [] ys = omega arith
  failures-append (x ∷ xs) ys = ground (arith, failures-append xs ys)

  summarize-Counts :
      (rs : List (ItemResult Content)) (workers wall : Int64)
      → Counts zeros (summarize rs workers wall) rs
  unfolding summarize
  summarize-Counts rs workers wall =
      let c =
        add_results-Counts rs (record zeros { items = rs; concurrency = workers; wall_ms = wall })
          (record {
            ok_word = omega arith;
            failed_word = omega arith;
            prompt_word = omega arith;
            completion_word = omega arith;
          }) in
      record { oks = c.oks; fails = c.fails; prompts = c.prompts; completions = c.completions }

  -- Merging the summaries of two chunks gives the counts of all their results together: how many
  -- succeeded and failed, and the tokens of those that succeeded, modulo 2 ^ 64.
  pub merge_summary-summarize :
      (xs ys : List (ItemResult Content)) (workers wall workers' wall' offset : Int64)
      → let m = merge_summary (summarize xs workers wall) (summarize ys workers' wall') offset in
        (m.ok ≡ total (λ r. 1) (xs ++ ys) % modulus)
        × (m.failed ≡ failures (xs ++ ys) % modulus)
        × (m.prompt_tokens ≡ total (λ r. r.prompt_tokens) (xs ++ ys) % modulus)
        × (m.completion_tokens ≡ total (λ r. r.completion_tokens) (xs ++ ys) % modulus)
  unfolding merge_summary
  merge_summary-summarize xs ys workers wall workers' wall' offset =
      let a = summarize-Counts xs workers wall in
      let b = summarize-Counts ys workers' wall' in
      (
        omega (arith, a.oks, b.oks, total-append (λ r. 1) xs ys),
        omega (arith, a.fails, b.fails, failures-append xs ys),
        omega (arith, a.prompts, b.prompts, total-append (λ r. r.prompt_tokens) xs ys),
        omega (arith, a.completions, b.completions, total-append (λ r. r.completion_tokens) xs ys),
      )
