-- ===== src/Jobs/Isolation.antt =====
-- A job's channel carries what its assigned provider delivered for it, in order, and nothing else.
use shared_compute.Common.{
  ℕ, ◌≡◌, refl, sym, ap, ◌∙◌, ◌⊎◌, subst, String, Bool, true, false, Option, none, some, List, [],
  ◌∷◌, ◌++◌, All, length, ltb, ◌==◌, str_eq, eq_iff, eq_refl, if◌then◌else◌, Bool-cases,
  Option-cases, inl, inr, arith, ◌&&◌,
}
use mathlib.Core.Option.{some-injective}
use shared_compute.Common.Dict
use shared_compute.Common.Dict.{get-put, get-delete}
use shared_compute.Jobs.{
  Event, Assignment, Manager, buffer_size, register, deliver, deliver_to, try_send, close,
  close_assigned, close_channel, receive,
}
use shared_compute.Jobs.Valid.{
  IsValid, Op, registers, delivers, closes, receives, drop_reply, step, run, step-Steps,
}

-- The calls that end or replace the registration of job `j`.
abbrev touches : String → Op → Bool
touches j (registers k provider) = str_eq k j
touches j (closes k) = str_eq k j
touches j (delivers k provider ev) = false
touches j (receives c) = false

-- What one call does to the pending events of job `j`, whose frames provider `p` may send and
-- whose channel is `c`.
pub pending_step : String → String → ℕ → List Event → Op → List Event
pending_step j p c q (registers k provider) = q
pending_step j p c q (closes k) = q
pending_step j p c q (delivers k provider ev) =
    if str_eq k j && str_eq p provider && ltb (length q) buffer_size then q ++ ev ∷ [] else q
pending_step j p c q (receives d) = if d == c then elim q [ [] ↦ [] | ev ∷ rest ↦ rest ] else q

pub pending : String → String → ℕ → List Event → List Op → List Event
pending j p c q [] = q
pending j p c q (o ∷ os) = pending j p c (pending_step j p c q o) os

-- The registration of `j` stands, and `q` is what its channel holds.
pub record Holds (s : Manager) (j : String) (a : Assignment) (q : List Event) : Type 0 where
  pub assigned : Dict.get s.m j ≡ some a
  pub buffered : (s.channels a.ch).buffer ≡ q

Holds-some :
    {s s' : Manager} (j : String) (a : Assignment) (q : List Event)
    → Holds s j a q
    → some s ≡ some s'
    → Holds s' j a q
Holds-some j a q h e = subst (λ t. Holds t j a q) (some-injective _ _ e) h

pub register-Holds :
    (j provider : String) (s : Manager)
    → Holds (register j provider s).0 j (record { provider_id = provider; ch = s.next }) []
unfolding register
register-Holds j provider s = record {
  assigned = rw (get-put, eq_refl j) refl;
  buffered = ground arith;
}

assigned_once :
    (s : Manager) (k j : String) (b a : Assignment)
    → Dict.get s.m k ≡ some b
    → Dict.get s.m j ≡ some a
    → str_eq k j ≡ true
    → b ≡ a
assigned_once s k j b a g h e =
    some-injective _ _ (sym g ∙ ap (Dict.get s.m) ((eq_iff k j).0 e) ∙ h)

module _ (j : String) (a : Assignment) (q : List Event) where
  abbrev Kept : Op → Option Manager → Type 0
  Kept o r = (s' : Manager) → r ≡ some s' → Holds s' j a (pending_step j a.provider_id a.ch q o)

  register-Kept :
      (s : Manager) (k provider : String)
      → IsValid s
      → Holds s j a q
      → str_eq k j ≡ false
      → Kept (registers k provider) (some (register k provider s).0)
  unfolding register pending_step
  register-Kept s k provider v h n s' e =
      Holds-some j a q
        (record {
          assigned = rw (get-put, n) h.assigned;
          buffered = ground (arith, v.bound j a h.assigned, h.buffered);
        })
        e

  -- A frame of an unknown job or a foreign provider changes nothing.
  unkept :
      (s : Manager) (k provider : String) (ev : Event)
      → Holds s j a q
      → (Dict.get s.m k ≡ none)
        ⊎ ((b : Assignment) × (Dict.get s.m k ≡ some b) × (str_eq b.provider_id provider ≡ false))
      → Holds s j a (pending_step j a.provider_id a.ch q (delivers k provider ev))
  unfolding pending_step
  unkept s k provider ev h (inl e) = record {
    assigned = h.assigned;
    buffered = ground (arith, h.buffered, eq_iff k j, ap (Dict.get s.m) {x = k} {y = j});
  }
  unkept s k provider ev h (inr (b, e, foreign)) = record {
    assigned = h.assigned;
    buffered = ground (arith, h.buffered, foreign, assigned_once s k j b a e h.assigned);
  }

  send-Kept :
      (s : Manager) (k provider : String) (ev : Event) (b : Assignment)
      → IsValid s
      → Holds s j a q
      → Dict.get s.m k ≡ some b
      → str_eq b.provider_id provider ≡ true
      → Kept (delivers k provider ev) (drop_reply (try_send s b.ch (s.channels b.ch) ev))
  unfolding pending_step drop_reply try_send
  send-Kept s k provider ev b v h g same s' =
      elim (Bool-cases (ltb (length (s.channels b.ch).buffer) buffer_size)) [
        | inl room ↦
            rw (v.opened k b g, room)
              (Holds-some j a (pending_step j a.provider_id a.ch q (delivers k provider ev))
                (record {
                  assigned = h.assigned;
                  buffered = ground (
                    arith,
                    h.buffered,
                    same,
                    room,
                    v.own k j b a g h.assigned,
                    eq_iff k j,
                    assigned_once s k j b a g h.assigned,
                  );
                }))
        | inr full ↦
            rw (v.opened k b g, full)
              (Holds-some j a (pending_step j a.provider_id a.ch q (delivers k provider ev))
                (record {
                  assigned = h.assigned;
                  buffered =
                      ground
                        (arith, h.buffered, full, eq_iff k j, assigned_once s k j b a g h.assigned);
                }))
      ]

  deliver-Kept :
      (s : Manager) (k provider : String) (ev : Event)
      → IsValid s
      → Holds s j a q
      → Kept (delivers k provider ev) (drop_reply (deliver k provider ev s))
  unfolding deliver drop_reply
  deliver-Kept s k provider ev v h s' = elim (Option-cases (Dict.get s.m k)) [
    | inl e ↦ rw (e, deliver_to) (Holds-some j a _ (unkept s k provider ev h (inl e)))
    | inr (b, e) ↦ elim (Bool-cases (str_eq b.provider_id provider)) [
      | inl same ↦ rw (e, deliver_to, same) (send-Kept s k provider ev b v h e same s')
      | inr foreign ↦
          rw (e, deliver_to, foreign)
            (Holds-some j a _ (unkept s k provider ev h (inr (b, e, foreign))))
    ]
  ]

  close-Kept :
      (s : Manager) (k : String)
      → IsValid s
      → Holds s j a q
      → str_eq k j ≡ false
      → Kept (closes k) (close k s)
  unfolding close pending_step
  close-Kept s k v h n s' = elim (Option-cases (Dict.get s.m k)) [
    | inl g ↦ rw (g, close_assigned) (Holds-some j a q h)
    | inr (b, g) ↦
        rw (g, close_assigned, close_channel, v.opened k b g)
          (Holds-some j a q (record {
            assigned = rw (get-delete, n) h.assigned;
            buffered = ground (arith, h.buffered, v.own k j b a g h.assigned, eq_iff k j);
          }))
  ]

  receive-Kept : (s : Manager) (c : ℕ) → Holds s j a q → Kept (receives c) (some (receive c s))
  unfolding receive pending_step
  receive-Kept s c h s' =
      Holds-some j a (pending_step j a.provider_id a.ch q (receives c))
        (record { assigned = h.assigned; buffered = ground (arith, h.buffered) })

  step-Kept :
      (s : Manager) (o : Op) → IsValid s → Holds s j a q → touches j o ≡ false → Kept o (step s o)
  unfolding step
  step-Kept s (registers k provider) v h n = register-Kept s k provider v h n
  step-Kept s (delivers k provider ev) v h n = deliver-Kept s k provider ev v h
  step-Kept s (closes k) v h n = close-Kept s k v h n
  step-Kept s (receives c) v h n = receive-Kept s c h

-- In a run without a panic from a valid manager in which job `j` is neither registered again nor
-- closed, its registration stands, and its channel holds what a queue of 64 events would after the
-- deliveries for `j` by its own provider and the relay's receives on the channel: no other call,
-- job or provider reaches it.
pub run-pending :
    (j : String) (a : Assignment) (q : List Event) (s s' : Manager) (os : List Op)
    → IsValid s
    → Holds s j a q
    → All (λ o. touches j o ≡ false) os
    → run s os ≡ some s'
    → Holds s' j a (pending j a.provider_id a.ch q os)
unfolding run pending
run-pending j a q s s' [] v h n e = Holds-some j a q h e
run-pending j a q s s' (o ∷ os) v h n e =
    let (t, f, w) = step-Steps s o v in
    let left : run t os ≡ some s' = rw (← e, f) refl in
    run-pending j a (pending_step j a.provider_id a.ch q o) t s' os w
      (step-Kept j a q s o v h n.0 t f) n.1 left

-- A frame that provider `p` delivers.
abbrev pub delivered_by : String → Op → Bool
delivered_by p (delivers k provider ev) = str_eq provider p
delivered_by p (registers k provider) = false
delivered_by p (closes k) = false
delivered_by p (receives c) = false

pending-foreign :
    (p j : String) (a : Assignment) (q : List Event) (os : List Op)
    → str_eq a.provider_id p ≡ false
    → All (λ o. delivered_by p o ≡ true) os
    → (pending j a.provider_id a.ch q os ≡ q) × All (λ o. touches j o ≡ false) os
unfolding pending pending_step
pending-foreign p j a q [] n h = (refl, tt)
pending-foreign p j a q (delivers k provider ev ∷ os) n (own, h) =
    let (e, u) = pending-foreign p j a q os n h in
    let same : provider ≡ p = (eq_iff provider p).0 own in
    let other : str_eq a.provider_id provider ≡ false = rw same n in
    let kept : (if str_eq k j && str_eq a.provider_id provider && ltb (length q) buffer_size
          then q ++ ev ∷ []
          else q)
        ≡ q =
      ground (arith, other) in
    (rw kept e, (refl, u))
pending-foreign p j a q (registers k provider ∷ os) n (own, h) = absurd cc
pending-foreign p j a q (closes k ∷ os) n (own, h) = absurd cc
pending-foreign p j a q (receives c ∷ os) n (own, h) = absurd cc

-- Deliveries by one provider leave the registration and the channel of a job of another as they are.
pub run-foreign :
    (p j : String) (a : Assignment) (q : List Event) (s s' : Manager) (os : List Op)
    → IsValid s
    → Holds s j a q
    → str_eq a.provider_id p ≡ false
    → All (λ o. delivered_by p o ≡ true) os
    → run s os ≡ some s'
    → Holds s' j a q
run-foreign p j a q s s' os v h n own e =
    let (same, untouched) = pending-foreign p j a q os n own in
    subst (λ x. Holds s' j a x) same (run-pending j a q s s' os v h untouched e)
