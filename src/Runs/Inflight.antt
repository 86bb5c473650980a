-- ===== src/Runs/Inflight.antt =====
-- The count of a key's runs in flight, which the limit on concurrent runs reads.
use shared_compute.Common.{
  ℕ, suc, ◌+◌, ◌-◌, ◌<◌, ◌≡◌, refl, ap, ◌∙◌, String, List, [], ◌∷◌, str_eq, eq_iff, if◌then◌else◌,
  arith,
}
use shared_compute.Common.Int64.{add64, neg64, half}
use shared_compute.Common.Dict
use shared_compute.Common.Dict.{Dict, get-put, get-delete}
use shared_compute.Runs.{RunRegistry, count_of, inflight_for, add_inflight}

-- A run of a key starts or ends.
pub data RunEvent : Type 0 where
  starts ends : String → RunEvent

pub after_event : {Result : Type 0} → RunRegistry Result → RunEvent → RunRegistry Result
after_event rr (starts key) = add_inflight key 1 rr
after_event rr (ends key) = add_inflight key (neg64 1) rr

pub after_events : {Result : Type 0} → RunRegistry Result → List RunEvent → RunRegistry Result
after_events rr [] = rr
after_events rr (e ∷ es) = after_events (after_event rr e) es

abbrev pub count_starts : List RunEvent → ℕ
count_starts [] = 0
count_starts (starts key ∷ es) = suc (count_starts es)
count_starts (ends key ∷ es) = count_starts es

-- The runs of a key in flight after the events; an end with none in flight changes nothing.
abbrev pub running : String → ℕ → List RunEvent → ℕ
running key n [] = n
running key n (starts k ∷ es) = running key (if str_eq k key then suc n else n) es
running key n (ends k ∷ es) = running key (if str_eq k key then n - 1 else n) es

module _ {Result : Type 0} where
  inflight-start :
      (rr : RunRegistry Result) (k key : String)
      → suc (inflight_for k rr) < half
      → inflight_for key (add_inflight k 1 rr)
        ≡ (if str_eq k key then suc (inflight_for key rr) else inflight_for key rr)
  unfolding inflight_for add_inflight
  inflight-start rr k key h =
      let n = add64 (count_of (Dict.get rr.inflight k)) 1 in
      ground (
        arith,
        h,
        eq_iff k key,
        get-put rr.inflight k key n,
        get-delete (Dict.put rr.inflight k n) k key,
        ap (Dict.get rr.inflight) {x = k} {y = key},
      )

  inflight-end :
      (rr : RunRegistry Result) (k key : String)
      → inflight_for k rr < half
      → inflight_for key (add_inflight k (neg64 1) rr)
        ≡ (if str_eq k key then inflight_for key rr - 1 else inflight_for key rr)
  unfolding inflight_for add_inflight
  inflight-end rr k key h =
      let n = add64 (count_of (Dict.get rr.inflight k)) (neg64 1) in
      ground (
        arith,
        h,
        eq_iff k key,
        get-put rr.inflight k key n,
        get-delete (Dict.put rr.inflight k n) k key,
        ap (Dict.get rr.inflight) {x = k} {y = key},
      )

  -- The count of a key follows its own runs alone, whatever runs of other keys start and end in
  -- between, as long as every key stays below 2 ^ 63 with the runs to be started.
  pub inflight-after_events :
      (rr : RunRegistry Result) (key : String) (es : List RunEvent)
      → ((k : String) → inflight_for k rr + count_starts es < half)
      → inflight_for key (after_events rr es) ≡ running key (inflight_for key rr) es
  unfolding after_events after_event
  inflight-after_events rr key [] h = refl
  inflight-after_events rr key (starts k ∷ es) h =
      let one = λ (j : String). inflight-start rr k j (omega (arith, h k)) in
      inflight-after_events (add_inflight k 1 rr) key es (λ j. ground (arith, one j, h j))
      ∙ ap (λ n. running key n es) (one key)
  inflight-after_events rr key (ends k ∷ es) h =
      let one = λ (j : String). inflight-end rr k j (omega (arith, h k)) in
      inflight-after_events (add_inflight k (neg64 1) rr) key es (λ j. ground (arith, one j, h j))
      ∙ ap (λ n. running key n es) (one key)

  -- A run that starts and ends leaves every count as it was.
  pub inflight-restored :
      (rr : RunRegistry Result) (k key : String)
      → ((j : String) → suc (inflight_for j rr) < half)
      → inflight_for key (add_inflight k (neg64 1) (add_inflight k 1 rr)) ≡ inflight_for key rr
  unfolding after_events after_event
  inflight-restored rr k key small =
      inflight-after_events rr key (starts k ∷ ends k ∷ []) (λ j. omega (arith, small j))
      ∙ ground arith
