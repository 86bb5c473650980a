-- ===== src/Council/Runs/Kept.antt =====
-- Which reviews are kept, also after a restart.
use mathlib.Core.List.{append-nil, append_assoc}
use shared_compute.Common.{
  map, ℕ, suc, ◌-◌, ◌≤◌, ◌≡◌, refl, ap, ◌∙◌, Option, some, List, [], ◌∷◌, ◌++◌, length, drop,
  length-append, length-drop, drop-append, drop_cut, ltb, Bool-cases, inl, inr, arith,
}
use shared_compute.Council.Ledger.{max_recent}
use shared_compute.Council.Runs.{
  Formats, RunStats, RunReview, Persister, Log, keep_last, loaded_or, record_row, hydrate,
  review_of, review_run,
}

-- The last of a list, at most so many as are kept.
abbrev pub last : {Row : Type 0} → ℕ → List Row → List Row
last n rows = drop (length rows - n) rows

module _ {Row : Type 0} where
  keep_last-last : (rows : List Row) → keep_last rows ≡ last max_recent rows
  unfolding keep_last
  keep_last-last rows = elim (Bool-cases (ltb max_recent (length rows))) [
    | inl e ↦ rw e refl
    | inr e ↦ let short : length rows - max_recent ≡ 0 = ground (arith, e) in rw (e, short) refl
  ]

  -- Keeping the last at each step keeps the last of the whole.
  last-snoc :
      (n : ℕ) (rows : List Row) (row : Row)
      → last (suc n) (last (suc n) rows ++ row ∷ []) ≡ last (suc n) (rows ++ row ∷ [])
  last-snoc n rows row = elim (Bool-cases (ltb (suc n) (length rows))) [
    | inl e ↦
        let k : ℕ = length rows - suc n in
        let cut : length (drop k rows ++ row ∷ []) - suc n ≡ 1 =
          ground (arith, e, length-append (drop k rows) (row ∷ []), length-drop k rows) in
        let whole : length (rows ++ row ∷ []) - suc n ≡ suc k =
          ground (arith, e, length-append rows (row ∷ [])) in
        rw
          (
            cut,
            whole,
            drop_cut rows (row ∷ []) k (ground (arith, e)),
            drop-append rows (row ∷ []) (suc k) (ground (arith, e)),
          )
          refl
    | inr e ↦ let short : length rows - suc n ≡ 0 = ground (arith, e) in rw short refl
  ]

module _ {Float : Type 0} (formats : Formats Float) where
  -- The reviews of executed workloads, each with the time of its review, the first first.
  abbrev pub reviews_of : List (ℕ × RunStats Float) → List (RunReview Float)
  reviews_of runs = map (λ e. review_of formats e.0 e.1) runs

module _ {Float Decision Db : Type 0} (formats : Formats Float)
    (persister : Option (Persister Decision (RunReview Float) Db)) where
  unfoldable pub review_runs :
      List (ℕ × RunStats Float)
      → Log Decision (RunReview Float) Db
      → Log Decision (RunReview Float) Db
  review_runs [] log = log
  review_runs ((now, s) ∷ runs) log = review_runs runs (review_run formats persister now s log)

  run_reviews-review_run :
      (now : ℕ) (s : RunStats Float) (old : List (RunReview Float))
      (log : Log Decision (RunReview Float) Db)
      → log.run_reviews ≡ last max_recent old
      → (review_run formats persister now s log).run_reviews
        ≡ last max_recent (old ++ review_of formats now s ∷ [])
  unfolding review_run record_row
  run_reviews-review_run now s old log h =
      keep_last-last (log.run_reviews ++ review_of formats now s ∷ [])
      ∙ ap (λ l. last max_recent (l ++ review_of formats now s ∷ [])) h
      ∙ last-snoc 49 old (review_of formats now s)

  review_runs-last :
      (runs : List (ℕ × RunStats Float)) (old : List (RunReview Float))
      (log : Log Decision (RunReview Float) Db)
      → log.run_reviews ≡ last max_recent old
      → (review_runs runs log).run_reviews ≡ last max_recent (old ++ reviews_of formats runs)
  unfolding review_runs
  review_runs-last [] old log h = rw append-nil h
  review_runs-last ((now, s) ∷ runs) old log h =
      rw (← append_assoc old (review_of formats now s ∷ []) (reviews_of formats runs)) (
        review_runs-last runs (old ++ review_of formats now s ∷ [])
          (review_run formats persister now s log) (run_reviews-review_run now s old log h))

  recent-review_runs :
      (runs : List (ℕ × RunStats Float)) (log : Log Decision (RunReview Float) Db)
      → (review_runs runs log).recent ≡ log.recent
  unfolding review_runs review_run record_row
  recent-review_runs [] log = refl
  recent-review_runs ((now, s) ∷ runs) log =
      recent-review_runs runs (review_run formats persister now s log)

module _ {Float Decision Db : Type 0} (formats : Formats Float)
    (p : Persister Decision (RunReview Float) Db) where
  -- After a restart whose Hydrate loads at most fifty reviews from the database, whatever workloads are
  -- executed then, at whatever times, the list of reviews holds the last fifty of the loaded ones and the
  -- new ones behind them, in order, and the decisions are those that the database had. Where it has an
  -- error for either, that list starts empty.
  pub review_runs-hydrate :
      (db : Db) (runs : List (ℕ × RunStats Float))
      → length (loaded_or [] (p.load_run_reviews max_recent db)) ≤ max_recent
      → let start : Log Decision (RunReview Float) Db = record {
        recent = [];
        run_reviews = [];
        db = db;
      } in
        let log = review_runs formats (some p) runs (hydrate (some p) start) in
        (log.run_reviews
          ≡ last max_recent
              (loaded_or [] (p.load_run_reviews max_recent db) ++ reviews_of formats runs))
        × (log.recent ≡ loaded_or [] (p.load_decisions max_recent db))
  unfolding hydrate
  review_runs-hydrate db runs few =
      let rows = loaded_or [] (p.load_run_reviews max_recent db) in
      let log : Log Decision (RunReview Float) Db = record {
        recent = loaded_or [] (p.load_decisions max_recent db);
        run_reviews = rows;
        db = db;
      } in
      let none_dropped : length rows - max_recent ≡ 0 = omega (arith, few) in
      (
        review_runs-last formats (some p) runs rows log (rw none_dropped refl),
        recent-review_runs formats (some p) runs log,
      )
