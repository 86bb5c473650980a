-- ===== src/Store/Rows/Usage.antt =====
-- The usage rows are the sums of the events, by key and model.
use shared_compute.Common.{
  ◌<◌, ◌≡◌, ◌∙◌, refl, String, Bool, ◌&&◌, some, List, [], ◌∷◌, ◌++◌, str_eq, eq_iff, if◌then◌else◌,
  Bool-cases, Option-cases, inl, inr, arith,
}
use mathlib.Core.Option.{some-injective}
use shared_compute.Common.Int64.{Int64, add64, modulus}
use shared_compute.Store.{Mem, UsageEvent, UsageRow}
use shared_compute.Store.Rows.{raise_usage, add_usage, first_row, record_usage, usage_since}

abbrev pub is_for : String → String → UsageRow → Bool
is_for key model r = str_eq r.key_id key && str_eq r.model model

-- The sum of a column over the rows of a key and a model.
abbrev pub sum_of : (UsageRow → Int64) → String → String → List UsageRow → Int64
sum_of column key model [] = 0
sum_of column key model (r ∷ rs) =
    let rest = sum_of column key model rs in
    if is_for key model r then add64 (column r) rest else rest

-- A column that RecordUsage adds to, with what it adds.
pub data Column : Type 0 where
  requests prompt_tokens completion_tokens : Column

abbrev pub of_row : Column → UsageRow → Int64
of_row requests r = r.requests
of_row prompt_tokens r = r.prompt_tokens
of_row completion_tokens r = r.completion_tokens

abbrev pub of_event : Column → UsageEvent → Int64
of_event requests ev = 1
of_event prompt_tokens ev = ev.prompt_tokens
of_event completion_tokens ev = ev.completion_tokens

abbrev pub event_for : String → String → UsageEvent → Bool
event_for key model ev = str_eq ev.key_id key && str_eq ev.model model

of_row-first_row : (c : Column) (ev : UsageEvent) → of_row c (first_row ev) ≡ of_event c ev
of_row-first_row requests ev = refl
of_row-first_row prompt_tokens ev = refl
of_row-first_row completion_tokens ev = refl

abbrev raised : UsageEvent → UsageRow → UsageRow
raised ev r = record r {
  requests = add64 r.requests 1;
  prompt_tokens = add64 r.prompt_tokens ev.prompt_tokens;
  completion_tokens = add64 r.completion_tokens ev.completion_tokens;
}

of_row-raised :
    (c : Column) (ev : UsageEvent) (r : UsageRow)
    → of_row c (raised ev r) ≡ add64 (of_row c r) (of_event c ev)
of_row-raised requests ev r = refl
of_row-raised prompt_tokens ev r = refl
of_row-raised completion_tokens ev r = refl

module _ (c : Column) (key model : String) where
  abbrev sum : List UsageRow → Int64
  sum rs = sum_of (of_row c) key model rs

  sum-lt : (rs : List UsageRow) → sum rs < modulus
  sum-lt [] = omega arith
  sum-lt (r ∷ rs) = ground (arith, sum-lt rs)

  share : UsageEvent → Int64
  share ev = if event_for key model ev then of_event c ev else 0

  sum-append :
      (ev : UsageEvent) (rs : List UsageRow)
      → sum (rs ++ first_row ev ∷ []) ≡ add64 (sum rs) (share ev)
  unfolding share
  sum-append ev [] = elim (Bool-cases (event_for key model ev)) [
    | inl e ↦ rw (e, of_row-first_row) (omega arith)
    | inr e ↦ rw e refl
  ]
  sum-append ev (r ∷ rs) = elim (Bool-cases (is_for key model r)) [
    | inl e ↦ rw e (omega (arith, sum-append ev rs))
    | inr e ↦ rw e (sum-append ev rs)
  ]

  sum-raise_usage :
      (ev : UsageEvent) (rs rs' : List UsageRow)
      → raise_usage ev rs ≡ some rs'
      → sum rs' ≡ add64 (sum rs) (share ev)
  unfolding raise_usage share
  sum-raise_usage ev [] rs' h = cc
  sum-raise_usage ev (r ∷ rs) rs' h = elim (Bool-cases (is_for ev.key_id ev.model r)) [
    | inl e ↦ ground (
      arith,
      e,
      h,
      of_row-raised c ev r,
      sum-lt rs,
      eq_iff r.key_id ev.key_id,
      eq_iff r.model ev.model,
      eq_iff r.key_id key,
      eq_iff ev.key_id key,
      eq_iff r.model model,
      eq_iff ev.model model,
    )
    | inr e ↦ elim (Option-cases (raise_usage ev rs)) [
      | inl n ↦ ground (arith, e, n, h)
      | inr (t, g) ↦
          let one : some (r ∷ t) ≡ some rs' = rw (← h, e, g) refl in
          rw (← some-injective _ _ one) (split r t rs (sum-raise_usage ev rs t g))
    ]
  ]
    where
      split :
          (r : UsageRow) (t rs : List UsageRow)
          → sum t ≡ add64 (sum rs) (share ev)
          → sum (r ∷ t) ≡ add64 (sum (r ∷ rs)) (share ev)
      split r t rs ih = elim (Bool-cases (is_for key model r)) [
        | inl e ↦ rw e (omega arith)
        | inr e ↦ rw e ih
      ]

added :
    (c : Column) (key model : String) (ev : UsageEvent) (rs : List UsageRow)
    → sum_of (of_row c) key model (add_usage ev (raise_usage ev rs) rs) ≡ (
        if event_for key model ev
        then add64 (sum_of (of_row c) key model rs) (of_event c ev)
        else sum_of (of_row c) key model rs)
unfolding share add_usage
added c key model ev rs = elim (Option-cases (raise_usage ev rs)) [
  | inl n ↦ rw (n, add_usage) (sum-append c key model ev rs ∙ out)
  | inr (t, g) ↦ rw (g, add_usage) (sum-raise_usage c key model ev rs t g ∙ out)
]
  where
    out : add64 (sum_of (of_row c) key model rs) (share c key model ev) ≡ (
        if event_for key model ev
        then add64 (sum_of (of_row c) key model rs) (of_event c ev)
        else sum_of (of_row c) key model rs)
    out = elim (Bool-cases (event_for key model ev)) [
      | inl e ↦ rw e refl
      | inr e ↦ rw e (omega (arith, sum-lt c key model rs))
    ]

-- RecordUsage adds one request and the event's tokens to the sums of its key and model, modulo
-- 2 ^ 64, and changes no other key's or model's.
pub sum-record_usage :
    (c : Column) (key model : String) (ev : UsageEvent) (m : Mem)
    → sum_of (of_row c) key model (usage_since (record_usage ev m)) ≡ (
        if event_for key model ev
        then add64 (sum_of (of_row c) key model (usage_since m)) (of_event c ev)
        else sum_of (of_row c) key model (usage_since m))
unfolding usage_since record_usage
sum-record_usage c key model ev m = added c key model ev m.usage_rows
