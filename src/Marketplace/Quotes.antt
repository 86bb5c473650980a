-- ===== src/Marketplace/Quotes.antt =====
-- A quote is accepted at most once and only while it lives.
use shared_compute.Common.{
  ℕ, ◌≤◌, ◌≡◌, ◌⊎◌, refl, String, Bool, true, false, ◌||◌, none, some, List, [], ◌∷◌, All, str_eq,
  eq_refl, Bool-cases, Option-cases, inl, inr, arith,
}
use shared_compute.Common.Dict
use shared_compute.Common.Dict.{Dict, get-put, get-delete, length-delete-le, length-delete-lt}
use shared_compute.Marketplace.{
  Quote, Store, expired, gc_loop, find_oldest, make_room, create, accept, mark_accepted,
}

-- One call of a client.
pub data Op (Offer : Type 0) : Type 0 where
  creates : String → ℕ → String → String → Offer → Op Offer
  gets : String → ℕ → Op Offer
  accepts : String → ℕ → Op Offer

module _ {Offer : Type 0} where
  unfoldable pub step : Store Offer → Op Offer → Store Offer
  step s (creates id now key_id model offer) = (create id now key_id model offer s).0
  step s (gets id now) = s
  step s (accepts id now) = (mark_accepted id now s).0

  unfoldable pub run : Store Offer → List (Op Offer) → Store Offer
  run s [] = s
  run s (o ∷ os) = run (step s o) os

  -- Deleting leaves no quote that was not there.
  get-gc_loop :
      (now : ℕ) (es m : Dict (Quote Offer)) (k : String) (q : Quote Offer)
      → Dict.get (gc_loop now es m) k ≡ some q
      → Dict.get m k ≡ some q
  unfolding gc_loop
  get-gc_loop now [] m k q h = h
  get-gc_loop now ((id, p) ∷ rest) m k q h = elim (Bool-cases (expired p now)) [
    | inl e ↦
        let below = get-gc_loop now rest (Dict.delete m id) k q (rw (← h, e) refl) in
        ground (arith, below, get-delete m id k)
    | inr e ↦ get-gc_loop now rest m k q (rw (← h, e) refl)
  ]

  get-make_room :
      (max : ℕ) (m : Dict (Quote Offer)) (k : String) (q : Quote Offer)
      → Dict.get (make_room max m) k ≡ some q
      → Dict.get m k ≡ some q
  unfolding make_room
  get-make_room max m k q h = ground (arith, h, get-delete m (find_oldest "" 0 m) k)

  -- Acceptance: the lock hands a quote out as accepted only if it is there, alive and not yet
  -- accepted, and then marks it; else it changes nothing.
  pub mark_accepted_cases :
      (id : String) (now : ℕ) (s : Store Offer)
      → let r = mark_accepted id now s in
        ((q : Quote Offer) × (Dict.get s.m id ≡ some q)
          × (now ≤ q.expires_at)
          × (q.accepted ≡ false)
          × (r.1 ≡ some (record q { accepted = true; accepted_at = now }))
          × (Dict.get r.0.m id ≡ r.1))
        ⊎ ((r.1 ≡ none) × (r.0 ≡ s))
  unfolding mark_accepted
  mark_accepted_cases id now s = elim (Option-cases (Dict.get s.m id)) [
    | inl e ↦ rw (e, accept) (inr (refl, refl))
    | inr (q, e) ↦ elim (Bool-cases (expired q now || q.accepted)) [
      | inl spent ↦ rw (e, accept, spent) (inr (refl, refl))
      | inr free ↦
          rw (e, accept, free)
            (inl (
              q,
              refl,
              ground (arith, free),
              ground (arith, free),
              refl,
              ground (
                arith,
                eq_refl id,
                get-put s.m id id (record q { accepted = true; accepted_at = now }),
              ),
            ))
    ]
  ]

  -- The id stands for an accepted quote, if for any.
  abbrev pub IsSpent : String → Store Offer → Type 0
  IsSpent id s = (q : Quote Offer) → Dict.get s.m id ≡ some q → q.accepted ≡ true

  abbrev pub creates_id : String → Op Offer → Bool
  creates_id id (creates j now key_id model offer) = str_eq j id
  creates_id id (gets j now) = false
  creates_id id (accepts j now) = false

  create-IsSpent :
      (id j : String) (now : ℕ) (key_id model : String) (offer : Offer) (s : Store Offer)
      → str_eq j id ≡ false
      → IsSpent id s
      → IsSpent id (create j now key_id model offer s).0
  unfolding create
  create-IsSpent id j now key_id model offer s n h q =
      rw (get-put, n)
        λ e. h q (get-gc_loop now s.m s.m id q (get-make_room s.max (gc_loop now s.m s.m) id q e))

  accept-IsSpent :
      (id j : String) (now : ℕ) (s : Store Offer)
      → IsSpent id s
      → IsSpent id (mark_accepted j now s).0
  unfolding mark_accepted
  accept-IsSpent id j now s h q = elim (Option-cases (Dict.get s.m j)) [
    | inl e ↦ rw (e, accept) (h q)
    | inr (p, e) ↦ elim (Bool-cases (expired p now || p.accepted)) [
      | inl f ↦ rw (e, accept, f) (h q)
      | inr f ↦ rw (e, accept, f, get-put) λ g. ground (arith, g, h q)
    ]
  ]

  step-IsSpent :
      (id : String) (s : Store Offer) (o : Op Offer)
      → creates_id id o ≡ false
      → IsSpent id s
      → IsSpent id (step s o)
  unfolding step
  step-IsSpent id s (creates j now key_id model offer) n h =
      create-IsSpent id j now key_id model offer s n h
  step-IsSpent id s (gets j now) n h = h
  step-IsSpent id s (accepts j now) n h = accept-IsSpent id j now s h

  run-IsSpent :
      (id : String) (s : Store Offer) (os : List (Op Offer))
      → All (λ o. creates_id id o ≡ false) os
      → IsSpent id s
      → IsSpent id (run s os)
  unfolding run
  run-IsSpent id s [] n h = h
  run-IsSpent id s (o ∷ os) n h = run-IsSpent id (step s o) os n.1 (step-IsSpent id s o n.0 h)

  spent_refused :
      (id : String) (now : ℕ) (s : Store Offer) → IsSpent id s → (mark_accepted id now s).1 ≡ none
  spent_refused id now s h = elim (mark_accepted_cases id now s) [
    | inl (q, e, live, free, rest, stored) ↦ absurd (cc (h q e, free))
    | inr (e, same) ↦ e
  ]

  -- Once a quote was accepted, no later call accepts its id again, whatever happens in between,
  -- unless the id is created anew.
  pub accepted_once :
      (id : String) (now later : ℕ) (s : Store Offer) (q : Quote Offer) (os : List (Op Offer))
      → (mark_accepted id now s).1 ≡ some q
      → All (λ o. creates_id id o ≡ false) os
      → (mark_accepted id later (run (mark_accepted id now s).0 os)).1 ≡ none
  accepted_once id now later s q os h n =
      spent_refused id later (run (mark_accepted id now s).0 os)
        (run-IsSpent id (mark_accepted id now s).0 os n marked)
    where
      marked : IsSpent id (mark_accepted id now s).0
      marked p e = elim (mark_accepted_cases id now s) [
        | inl (r, f, live, free, out, stored) ↦ ground (arith, e, out, stored)
        | inr (f, same) ↦ cc (f, h)
      ]
