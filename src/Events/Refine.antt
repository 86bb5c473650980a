-- ===== src/Events/Refine.antt =====
-- The ring implements a bounded queue: a snapshot is the last events that were pushed.
use mathlib.Core.List.{append-nil, append_assoc}
use native.Mathlib.Nat.{mod-eq_of_lt, mod_self}
use shared_compute.Common.{
  take-set, drop-set, drop_all, take_all, drop_cut, ℕ, suc, ◌+◌, ◌%◌, ◌≤◌, ◌<◌, ◌≡◌, refl, sym, ◌∙◌,
  Bool, true, false, List, [], ◌∷◌, ◌++◌, inl, inr, ◌⊎◌, length-replicate, length, set, take, drop,
  length-set, length-take, length-drop, length-append, ltb, ◌==◌, if◌then◌else◌, Bool-cases, lt→ltb,
  arith,
}
use shared_compute.Common.Int64.{Int64}
use shared_compute.Events.{
  Event, Entry, Ring, new_ring, ring_capacity, push, snapshot, len, event_after, zero_event,
}

-- A queue of at most `cap` items, oldest first: a push to a full queue drops the oldest.
abbrev pub push_bounded {ℓ} : {A : Type ℓ} → ℕ → List A → A → List A
push_bounded cap xs x = (if ltb (length xs) cap then xs else drop 1 xs) ++ x ∷ []

pub record IsValid (r : Ring) : Type 0 where
  pub head_in : r.head < length r.buf

ring_capacity-le : (capacity : Int64) → 16 ≤ ring_capacity capacity
ring_capacity-le capacity = ground arith

pub new_ring-IsValid : (capacity : Int64) → IsValid (new_ring capacity)
unfolding new_ring
new_ring-IsValid capacity = record {
  head_in =
      omega
        (arith, ring_capacity-le capacity, length-replicate (ring_capacity capacity) zero_event);
}

pub push-IsValid : (r : Ring) (e : Entry) → IsValid r → IsValid (push r e).0
unfolding push
push-IsValid r e v = record {
  head_in = omega (arith, v.head_in, length-set r.buf r.head (event_after r.seq e));
}

pub length-push : (r : Ring) (e : Entry) → length (push r e).0.buf ≡ length r.buf
unfolding push
length-push r e = length-set r.buf r.head (event_after r.seq e)

-- The cursor after a push: one further, or back at the start.
wrap_head :
    (h n : ℕ) → h < n → ((suc h < n) × ((h + 1) % n ≡ suc h)) ⊎ ((suc h ≡ n) × ((h + 1) % n ≡ 0))
wrap_head h n p = elim (Bool-cases (ltb (suc h) n)) [
  | inl e ↦ inl (ground arith, grind (arith, mod-eq_of_lt {n = h + 1} {m = n}))
  | inr e ↦ inr (ground arith, ground (arith, mod_self n))
]

module _ {ℓ} {A : Type ℓ} where
  -- The stored items, oldest first, by the three fields of the ring that hold them.
  abbrev slots : Bool → ℕ → List A → List A
  slots full h xs = if full then drop h xs ++ take h xs else take h xs

  -- A full ring at its last slot: the drop at the cut empties the part behind it.
  slots-next :
      (full : Bool) (h : ℕ) (xs : List A) (v : A)
      → suc h < length xs
      → slots full (suc h) (set xs h v) ≡ push_bounded (length xs) (slots full h xs) v
  slots-next false h xs v p =
      let short : ltb (length (take h xs)) (length xs) ≡ true = ground (arith, length-take h xs) in
      rw short (take-set xs h v (omega arith))
  slots-next true h xs v p =
      let long : ltb (length (drop h xs ++ take h xs)) (length xs) ≡ false =
        ground (arith, length-append (drop h xs) (take h xs), length-take h xs, length-drop h xs) in
      rw
        (
          long,
          drop-set xs h v,
          take-set xs h v (omega arith),
          drop_cut xs (take h xs) h (omega arith),
        )
        (sym (append_assoc (drop (suc h) xs) (take h xs) (v ∷ [])))

  slots-wrap :
      (full : Bool) (h : ℕ) (xs : List A) (v : A)
      → suc h ≡ length xs
      → slots true 0 (set xs h v) ≡ push_bounded (length xs) (slots full h xs) v
  slots-wrap full h xs v p = append-nil (set xs h v) ∙ whole ∙ last full
    where
      whole : set xs h v ≡ take h xs ++ v ∷ []
      whole =
          sym (take_all (set xs h v) (suc h) (omega (arith, length-set xs h v)))
          ∙ take-set xs h v (omega arith)

      last : (full : Bool) → take h xs ++ v ∷ [] ≡ push_bounded (length xs) (slots full h xs) v
      last false =
          let short : ltb (length (take h xs)) (length xs) ≡ true =
            ground (arith, length-take h xs) in
          rw short refl
      last true =
          let long : ltb (length (drop h xs ++ take h xs)) (length xs) ≡ false =
            ground
              (arith, length-append (drop h xs) (take h xs), length-take h xs, length-drop h xs) in
          rw (long, drop_cut xs (take h xs) h (omega arith), drop_all xs (suc h) (omega arith)) refl

suc-eq-zero : (n : ℕ) → (suc n == 0) ≡ false
suc-eq-zero n = ground arith

-- A push to a valid ring is a push to the bounded queue that its snapshot is: the event goes to the
-- end, and the oldest event goes when the ring was full.
pub snapshot-push :
    (r : Ring) (e : Entry)
    → IsValid r
    → snapshot (push r e).0 ≡ push_bounded (length r.buf) (snapshot r) (event_after r.seq e)
unfolding push snapshot
snapshot-push r e v = elim (wrap_head r.head (length r.buf) v.head_in) [
  | inl (more, eq) ↦
      rw (eq, suc-eq-zero) (slots-next r.full r.head r.buf (event_after r.seq e) more)
  | inr (last, eq) ↦ rw eq (slots-wrap r.full r.head r.buf (event_after r.seq e) last)
]

-- Len counts the events that a snapshot returns.
pub length-snapshot : (r : Ring) → IsValid r → length (snapshot r) ≡ len r
unfolding snapshot len
length-snapshot r v = ground (
  arith,
  length-append (drop r.head r.buf) (take r.head r.buf),
  length-take r.head r.buf,
  length-drop r.head r.buf,
)

module _ {ℓ} {A : Type ℓ} where
  -- The last `n` items.
  abbrev pub keep_last : ℕ → List A → List A
  keep_last n [] = []
  keep_last n (x ∷ xs) = if ltb (length xs) n then x ∷ xs else keep_last n xs

  keep_last_short : (n : ℕ) (xs : List A) → length xs ≤ n → keep_last n xs ≡ xs
  keep_last_short n [] h = refl
  keep_last_short n (x ∷ xs) h = rw (lt→ltb (length xs) n (omega arith)) refl

  keep_last-append :
      (n : ℕ) (xs ys : List A) → keep_last n (keep_last n xs ++ ys) ≡ keep_last n (xs ++ ys)
  keep_last-append n [] ys = refl
  keep_last-append n (x ∷ xs) ys = elim (Bool-cases (ltb (length xs) n)) [
    | inl e ↦ rw e refl
    | inr e ↦
        let long : ltb (length (xs ++ ys)) n ≡ false = ground (arith, length-append xs ys) in
        rw (e, long) (keep_last-append n xs ys)
  ]

  push_bounded-keep_last :
      (n : ℕ) (xs : List A) (x : A)
      → 0 < n
      → length xs ≤ n
      → push_bounded n xs x ≡ keep_last n (xs ++ x ∷ [])
  push_bounded-keep_last n [] x h k = ground arith
  push_bounded-keep_last n (y ∷ ys) x h k =
      ground (arith, length-append ys (x ∷ []), keep_last_short n (ys ++ x ∷ []))

  length-push_bounded :
      (n : ℕ) (xs : List A) (x : A) → 0 < n → length xs ≤ n → length (push_bounded n xs x) ≤ n
  length-push_bounded n [] x h k = ground arith
  length-push_bounded n (y ∷ ys) x h k = ground (arith, length-append ys (x ∷ []))

-- A run of pushes, and the events that it builds.
unfoldable pub push_all : Ring → List Entry → Ring
push_all r [] = r
push_all r (e ∷ es) = push_all (push r e).0 es

unfoldable pub events_after : ℕ → List Entry → List Event
events_after seq [] = []
events_after seq (e ∷ es) = let ev = event_after seq e in ev ∷ events_after ev.seq es

seq-push : (r : Ring) (e : Entry) → (push r e).0.seq ≡ (event_after r.seq e).seq
unfolding push
seq-push r e = refl

length-snapshot-le : (r : Ring) → IsValid r → length (snapshot r) ≤ length r.buf
unfolding len
length-snapshot-le r v = ground (arith, length-snapshot r v, v.head_in)

pub snapshot-push_all :
    (r : Ring) (es : List Entry)
    → IsValid r
    → snapshot (push_all r es) ≡ keep_last (length r.buf) (snapshot r ++ events_after r.seq es)
unfolding push_all events_after
snapshot-push_all r [] v =
    rw append-nil (sym (keep_last_short (length r.buf) (snapshot r) (length-snapshot-le r v)))
snapshot-push_all r (e ∷ es) v =
    snapshot-push_all (push r e).0 es (push-IsValid r e v)
    ∙ rw
        (
          length-push r e,
          seq-push r e,
          snapshot-push r e v,
          push_bounded-keep_last (length r.buf) (snapshot r) (event_after r.seq e)
              (omega (arith, v.head_in)) (length-snapshot-le r v),
          keep_last-append,
        )
        (rw append_assoc refl)

-- After any pushes to a new ring, a snapshot is the last events pushed, at most the capacity of
-- them, oldest first.
pub snapshot-new_ring :
    (capacity : Int64) (es : List Entry)
    → snapshot (push_all (new_ring capacity) es)
      ≡ keep_last (ring_capacity capacity) (events_after 0 es)
snapshot-new_ring capacity es =
    snapshot-push_all (new_ring capacity) es (new_ring-IsValid capacity) ∙ fresh
  where
    fresh :
        keep_last
          (length (new_ring capacity).buf)
          (snapshot (new_ring capacity) ++ events_after (new_ring capacity).seq es)
        ≡ keep_last (ring_capacity capacity) (events_after 0 es)
    fresh =
        unfold new_ring snapshot in rw (length-replicate (ring_capacity capacity) zero_event) refl
