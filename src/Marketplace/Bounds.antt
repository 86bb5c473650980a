-- ===== src/Marketplace/Bounds.antt =====
-- The store of quotes never exceeds its bound: room is made before a quote is put in.
use shared_compute.Common.{
  ℕ, suc, ◌≤◌, ◌<◌, ◌≡◌, ◌⊎◌, ◌∙◌, refl, String, ◌||◌, some, List, [], ◌∷◌, length, ltb, str_eq,
  eq_refl, Bool-cases, Option-cases, inl, inr, arith,
}
use shared_compute.Common.Int64.{Int64}
use shared_compute.Common.Dict
use shared_compute.Common.Dict.{Dict, get-put, get-delete, length-delete-le, length-delete-lt}
use shared_compute.Marketplace.{
  Quote, Store, expired, gc_loop, find_oldest, make_room, new_quote, create, accept, mark_accepted,
  new_store,
}
use shared_compute.Marketplace.Quotes.{Op, creates, gets, accepts, step, run}

length-put-le :
    {V : Type 0} (m : Dict V) (k : String) (v : V) → length (Dict.put m k v) ≤ suc (length m)
unfolding Dict.put
length-put-le m k v = omega (arith, length-delete-le {0} m k)

module _ {Offer : Type 0} where
  length-gc_loop-le : (now : ℕ) (es m : Dict (Quote Offer)) → length (gc_loop now es m) ≤ length m
  unfolding gc_loop
  length-gc_loop-le now [] m = omega arith
  length-gc_loop-le now ((id, q) ∷ rest) m = elim (Bool-cases (expired q now)) [
    | inl e ↦
        rw e
          (omega (arith, length-gc_loop-le now rest (Dict.delete m id), length-delete-le {0} m id))
    | inr e ↦ rw e (length-gc_loop-le now rest m)
  ]

  -- The map has the key.
  abbrev Has : Dict (Quote Offer) → String → Type 0
  Has m k = (q : Quote Offer) × (Dict.get m k ≡ some q)

  Has-head : (id : String) (p : Quote Offer) (m : Dict (Quote Offer)) → Has ((id, p) ∷ m) id
  unfolding Dict.get
  Has-head id p m = (p, rw eq_refl refl)

  Has-tail :
      (id k : String) (p : Quote Offer) (m : Dict (Quote Offer)) → Has m k → Has ((id, p) ∷ m) k
  unfolding Dict.get
  Has-tail id k p m (q, g) = elim (Bool-cases (str_eq id k)) [
    | inl e ↦ (p, rw e refl)
    | inr e ↦ (q, rw e g)
  ]

  -- The scan ends at the id that it started from or at one that the map has.
  find_oldest_key :
      (o : String) (at : ℕ) (m : Dict (Quote Offer))
      → (find_oldest o at m ≡ o) ⊎ Has m (find_oldest o at m)
  unfolding find_oldest
  find_oldest_key o at [] = inl refl
  find_oldest_key o at ((id, p) ∷ rest) = elim (Bool-cases (str_eq o "" || ltb p.created_at at)) [
    | inl e ↦ rw e (elim (find_oldest_key id p.created_at rest) [
      | inl same ↦ rw same (inr (Has-head id p rest))
      | inr h ↦ inr (Has-tail id (find_oldest id p.created_at rest) p rest h)
    ])
    | inr e ↦ rw e (elim (find_oldest_key o at rest) [
      | inl same ↦ inl same
      | inr h ↦ inr (Has-tail id (find_oldest o at rest) p rest h)
    ])
  ]

  find_oldest-Has :
      (id : String) (p : Quote Offer) (rest : Dict (Quote Offer))
      → Has ((id, p) ∷ rest) (find_oldest "" 0 ((id, p) ∷ rest))
  unfolding find_oldest
  find_oldest-Has id p rest = elim (find_oldest_key id p.created_at rest) [
    | inl same ↦ rw same (Has-head id p rest)
    | inr h ↦ Has-tail id (find_oldest id p.created_at rest) p rest h
  ]

  length-make_room :
      (max : ℕ) (m : Dict (Quote Offer))
      → 0 < max
      → length m ≤ max
      → suc (length (make_room max m)) ≤ max
  unfolding make_room
  length-make_room max [] h k = ground arith
  length-make_room max ((id, p) ∷ rest) h k =
      let (q, g) = find_oldest-Has id p rest in
      ground (arith, length-delete-lt ((id, p) ∷ rest) (find_oldest "" 0 ((id, p) ∷ rest)) q g)

  pub record IsBounded (s : Store Offer) : Type 0 where
    pub room : 0 < s.max
    pub within : length s.m ≤ s.max

  create-IsBounded :
      (id : String) (now : ℕ) (key_id model : String) (offer : Offer) (s : Store Offer)
      → IsBounded s
      → IsBounded (create id now key_id model offer s).0
  unfolding create
  create-IsBounded id now key_id model offer s b =
      let kept = gc_loop now s.m s.m in
      record {
        room = b.room;
        within = omega (
          arith,
          b.within,
          length-gc_loop-le now s.m s.m,
          length-make_room s.max kept b.room
              (omega (arith, b.within, length-gc_loop-le now s.m s.m)),
          length-put-le (make_room s.max kept) id (new_quote id now s.ttl key_id model offer),
        );
      }

  accept-IsBounded :
      (id : String) (now : ℕ) (s : Store Offer) → IsBounded s → IsBounded (mark_accepted id now s).0
  unfolding mark_accepted Dict.put
  accept-IsBounded id now s b = elim (Option-cases (Dict.get s.m id)) [
    | inl e ↦ rw (e, accept) b
    | inr (p, e) ↦ elim (Bool-cases (expired p now || p.accepted)) [
      | inl f ↦ rw (e, accept, f) b
      | inr f ↦
          rw (e, accept, f)
            (record {
              room = b.room;
              within = omega (arith, b.within, length-delete-lt s.m id p e);
            })
    ]
  ]

  step-IsBounded : (s : Store Offer) (o : Op Offer) → IsBounded s → IsBounded (step s o)
  unfolding step
  step-IsBounded s (creates id now key_id model offer) b =
      create-IsBounded id now key_id model offer s b
  step-IsBounded s (gets id now) b = b
  step-IsBounded s (accepts id now) b = accept-IsBounded id now s b

  run-IsBounded : (s : Store Offer) (os : List (Op Offer)) → IsBounded s → IsBounded (run s os)
  unfolding run
  run-IsBounded s [] b = b
  run-IsBounded s (o ∷ os) b = run-IsBounded (step s o) os (step-IsBounded s o b)

  max-step : (s : Store Offer) (o : Op Offer) → (step s o).max ≡ s.max
  unfolding step create mark_accepted
  max-step s (creates id now key_id model offer) = refl
  max-step s (gets id now) = refl
  max-step s (accepts id now) = ground arith

  max-run : (s : Store Offer) (os : List (Op Offer)) → (run s os).max ≡ s.max
  unfolding run
  max-run s [] = refl
  max-run s (o ∷ os) = max-run (step s o) os ∙ max-step s o

-- A new store never holds more than 2048 quotes, whatever is created and accepted.
pub length-run-le :
    (Offer : Type 0) (ttl : Int64) (os : List (Op Offer))
    → length (run (new_store Offer ttl) os).m ≤ 2048
length-run-le Offer ttl os =
    let b =
      run-IsBounded (new_store Offer ttl) os
        (record { room = omega arith; within = omega arith }) in
    omega (arith, b.within, max-run (new_store Offer ttl) os)
