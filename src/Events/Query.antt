-- ===== src/Events/Query.antt =====
-- What Recent and Counts return, against plain descriptions of the stored events.
use mathlib.Core.List.{reverse-cons}
use shared_compute.Common.{
  ℕ, zero, suc, ◌+◌, ◌%◌, ◌∙◌, ◌<◌, ◌≤◌, ◌≡◌, refl, String, Bool, true, false, not, ◌&&◌, Option,
  none, some, List, [], ◌∷◌, ◌++◌, reverse, length, take, All, select, ltb, leb, str_eq, eq_iff,
  if◌then◌else◌, Bool-cases, inl, inr, arith,
}
use shared_compute.Common.Int64.{Int64, modulus}
use shared_compute.Events.{
  Event, Entry, Ring, Text, Tally, new_ring, ring_capacity, snapshot, passes, recent_loop,
  recent_limit, recent, tally, or_else, counts_loop, counts,
}
use shared_compute.Events.Refine.{keep_last, events_after, push_all, snapshot-new_ring}

-- Sequence numbers fall along the list.
abbrev IsFalling : List Event → Type 0
IsFalling [] = Unit
IsFalling (x ∷ xs) = All (λ y. y.seq < x.seq) xs × IsFalling xs

-- Sequence numbers rise along the list, from above `n`.
abbrev RisesAbove : ℕ → List Event → Type 0
RisesAbove n [] = Unit
RisesAbove n (x ∷ xs) = (n < x.seq) × RisesAbove x.seq xs

module _ {ℓ κ} {A : Type ℓ} (P : A → Type κ) where
  All-append : (xs ys : List A) → All P xs → All P ys → All P (xs ++ ys)
  All-append [] ys h k = k
  All-append (x ∷ xs) ys h k = (h.0, All-append xs ys h.1 k)

  All-reverse : (xs : List A) → All P xs → All P (reverse xs)
  All-reverse [] h = tt
  All-reverse (x ∷ xs) h =
      rw reverse-cons (All-append (reverse xs) (x ∷ []) (All-reverse xs h.1) (h.0, tt))

IsFalling-append :
    (xs : List Event) (y : Event)
    → IsFalling xs
    → All (λ x. y.seq < x.seq) xs
    → IsFalling (xs ++ y ∷ [])
IsFalling-append [] y f h = (tt, tt)
IsFalling-append (x ∷ xs) y f h =
    (All-append (λ z. z.seq < x.seq) xs (y ∷ []) f.0 (h.0, tt), IsFalling-append xs y f.1 h.1)

All-RisesAbove : (n m : ℕ) (xs : List Event) → n ≤ m → RisesAbove m xs → All (λ x. n < x.seq) xs
All-RisesAbove n m [] h r = tt
All-RisesAbove n m (x ∷ xs) h r = (omega arith, All-RisesAbove n x.seq xs (omega arith) r.1)

reverse-IsFalling : (n : ℕ) (xs : List Event) → RisesAbove n xs → IsFalling (reverse xs)
reverse-IsFalling n [] r = tt
reverse-IsFalling n (x ∷ xs) r = rw reverse-cons (
    IsFalling-append (reverse xs) x (reverse-IsFalling x.seq xs r.1)
      (All-reverse (λ y. x.seq < y.seq) xs (All-RisesAbove x.seq x.seq xs (omega arith) r.1)))

RisesAbove-mono : (m n : ℕ) (xs : List Event) → m ≤ n → RisesAbove n xs → RisesAbove m xs
RisesAbove-mono m n [] h r = tt
RisesAbove-mono m n (x ∷ xs) h r = (omega arith, r.1)

RisesAbove-keep_last : (k n : ℕ) (xs : List Event) → RisesAbove n xs → RisesAbove n (keep_last k xs)
RisesAbove-keep_last k n [] r = tt
RisesAbove-keep_last k n (x ∷ xs) r = elim (Bool-cases (ltb (length xs) k)) [
  | inl e ↦ rw e r
  | inr e ↦
      rw e (
        RisesAbove-mono n x.seq (keep_last k xs) (omega arith)
          (RisesAbove-keep_last k x.seq xs r.1))
]

-- Until the counter wraps, the events are numbered upwards.
RisesAbove-events_after :
    (n : ℕ) (es : List Entry) → n + length es < modulus → RisesAbove n (events_after n es)
unfolding events_after
RisesAbove-events_after n [] h = tt
RisesAbove-events_after n (e ∷ es) h =
    let next : (n + 1) % modulus ≡ suc n = omega arith in
    rw next (omega arith, RisesAbove-events_after (suc n) es (omega arith))

module _ (t : Text) (level q : String) (since : ℕ) where
  abbrev wanted : Event → Bool
  wanted ev = ltb since ev.seq && passes t level q ev

  select-old :
      (xs : List Event) (n : ℕ) → n ≤ since → All (λ y. y.seq < n) xs → select wanted xs ≡ []
  select-old [] n h a = refl
  select-old (x ∷ xs) n h a =
      let old : ltb since x.seq ≡ false = ground arith in rw old (select-old xs n h a.1)

  -- The loop, with its break and its limit, is a filter cut to the limit.
  recent_loop-eq-take :
      (room : ℕ) (xs : List Event)
      → IsFalling xs
      → recent_loop t room level q since xs ≡ take room (select wanted xs)
  unfolding recent_loop
  recent_loop-eq-take zero [] f = refl
  recent_loop-eq-take (suc room) [] f = refl
  recent_loop-eq-take zero (x ∷ xs) f = refl
  recent_loop-eq-take (suc room) (x ∷ xs) f = elim (Bool-cases (leb x.seq since)) [
    | inl old ↦
        let passed : ltb since x.seq ≡ false = ground arith in
        rw (old, passed, select-old xs x.seq (ground arith) f.0) refl
    | inr new ↦
        let passed : ltb since x.seq ≡ true = ground arith in
        rw (new, passed)
          (ground (arith, recent_loop-eq-take room xs f.1, recent_loop-eq-take (suc room) xs f.1))
  ]

-- After any pushes to a new ring that do not wrap the counter, Recent returns the newest stored
-- events, newest first, that are numbered above `since` and pass both filters, cut to the limit.
pub recent-new_ring :
    (t : Text) (capacity limit : Int64) (es : List Entry) (level q : String) (since : ℕ)
    → length es < modulus
    → recent t (push_all (new_ring capacity) es) limit level q since
      ≡ take (recent_limit limit) (
          select
            (λ ev.
              ltb since ev.seq
              && passes t (t.to_upper (t.trim_space level)) (t.to_lower (t.trim_space q)) ev)
            (reverse (keep_last (ring_capacity capacity) (events_after 0 es))))
unfolding recent
recent-new_ring t capacity limit es level q since h = rw snapshot-new_ring (
    recent_loop-eq-take t (t.to_upper (t.trim_space level)) (t.to_lower (t.trim_space q)) since
      (recent_limit limit) (reverse (keep_last (ring_capacity capacity) (events_after 0 es)))
      (reverse-IsFalling 0 (keep_last (ring_capacity capacity) (events_after 0 es)) (
        RisesAbove-keep_last (ring_capacity capacity) 0 (events_after 0 es)
          (RisesAbove-events_after 0 es (omega arith)))))

-- The items before the first that fails the test.
abbrev pub take_while {ℓ} : {A : Type ℓ} → (A → Bool) → List A → List A
take_while p [] = []
take_while p (x ∷ xs) = let rest = take_while p xs in if p x then x ∷ rest else []

abbrev pub head? {ℓ} : {A : Type ℓ} → List A → Option A
head? [] = none
head? (x ∷ xs) = some x

abbrev pub has_level : String → Event → Bool
has_level level ev = str_eq ev.level level

abbrev pub first_of_two : Option Event → Option Event → Option Event
first_of_two none o = o
first_of_two (some e) o = some e

warn-ne-error : (level : String) → str_eq level "WARN" ≡ true → str_eq level "ERROR" ≡ false
warn-ne-error level h = let e : level ≡ "WARN" = (eq_iff level "WARN").0 h in rw e refl

counts_loop-window :
    (cutoff : ℕ) (xs : List Event) (c : Tally)
    → let window = take_while (λ ev. not (ltb ev.ts cutoff)) xs in
      counts_loop cutoff xs c ≡ record {
        warns = c.warns + length (select (has_level "WARN") window);
        errs = c.errs + length (select (has_level "ERROR") window);
        last_err = first_of_two c.last_err (head? (select (has_level "ERROR") window));
      }
unfolding counts_loop tally
counts_loop-window cutoff [] c = ground arith
counts_loop-window cutoff (x ∷ xs) c = elim (Bool-cases (ltb x.ts cutoff)) [
  | inl old ↦ rw old (ground arith)
  | inr new ↦ elim (Bool-cases (str_eq x.level "WARN")) [
    | inl w ↦
        rw
          (
            new,
            w,
            warn-ne-error x.level w,
            counts_loop-window cutoff xs (record c { warns = c.warns + 1 }),
          )
          (ground arith)
    | inr n ↦ elim (Bool-cases (str_eq x.level "ERROR")) [
      | inl e ↦
          rw
            (
              new,
              n,
              e,
              counts_loop-window cutoff xs
                  (record c { errs = c.errs + 1; last_err = or_else c.last_err x }),
            )
            (ground arith)
      | inr m ↦ rw (new, n, m, counts_loop-window cutoff xs c) refl
    ]
  ]
]

-- Counts returns the numbers of WARN and of ERROR events among the newest stored events down to
-- the first that is older than the window, and the newest of the ERROR events.
pub counts-window :
    (r : Ring) (cutoff : ℕ)
    → let window = take_while (λ ev. not (ltb ev.ts cutoff)) (reverse (snapshot r)) in
      counts r cutoff ≡ record {
        warns = length (select (has_level "WARN") window);
        errs = length (select (has_level "ERROR") window);
        last_err = head? (select (has_level "ERROR") window);
      }
unfolding counts
counts-window r cutoff =
    counts_loop-window cutoff (reverse (snapshot r))
      (record { warns = 0; errs = 0; last_err = none })
    ∙ ground arith
