-- ===== src/Jobs/Valid.antt =====
-- The map and the channels fit together, and no call panics.
use shared_compute.Common.{
  ℕ, ◌<◌, ◌≡◌, refl, String, true, false, Option, none, some, List, [], ◌∷◌, ◌++◌, length, ltb,
  str_eq, eq_iff, eq_refl, Bool-cases, Option-cases, inl, inr, arith,
}
use mathlib.Core.Option.{some-injective}
use shared_compute.Common.Dict
use shared_compute.Common.Dict.{get-put, get-delete}
use shared_compute.Jobs.{
  Event, Assignment, Manager, update, buffer_size, new, register, deliver, try_send, close, receive,
  has,
}

-- The channels in the map exist, are open, and belong to one job each.
pub record IsValid (s : Manager) : Type 0 where
  pub bound : (j : String) (a : Assignment) → Dict.get s.m j ≡ some a → a.ch < s.next
  pub opened :
      (j : String) (a : Assignment) → Dict.get s.m j ≡ some a → (s.channels a.ch).closed ≡ false
  pub own :
      (j k : String) (a b : Assignment)
      → Dict.get s.m j ≡ some a
      → Dict.get s.m k ≡ some b
      → a.ch ≡ b.ch
      → j ≡ k

pub new-IsValid : IsValid new
unfolding Dict.get
new-IsValid = record { bound = λ j a h. cc; opened = λ j a h. cc; own = λ j k a b h g e. cc }

pub has-new : (job : String) → has job new ≡ false
unfolding has Dict.get
has-new job = refl

pub register-IsValid :
    (job provider : String) (s : Manager) → IsValid s → IsValid (register job provider s).0
unfolding register
register-IsValid job provider s v = record {
  bound = λ j a. rw get-put λ h. ground (arith, v.bound j a);
  opened = λ j a. rw get-put λ h. ground (arith, v.bound j a, v.opened j a);
  own = λ j k a b.
      rw (get-put s.m job j, get-put s.m job k)
        λ h g e.
          ground (arith, eq_iff job j, eq_iff job k, v.bound j a, v.bound k b, v.own j k a b);
}

-- One call on the manager, or the relay taking an event.
pub data Op : Type 0 where
  registers : String → String → Op
  delivers : String → String → Event → Op
  closes : String → Op
  receives : ℕ → Op

unfoldable pub drop_reply {ℓ κ} : {A : Type ℓ} {B : Type κ} → Option (A × B) → Option A
drop_reply none = none
drop_reply (some (a, b)) = some a

unfoldable pub step : Manager → Op → Option Manager
unfolding drop_reply
step s (registers job provider) = some (register job provider s).0
step s (delivers job provider ev) = drop_reply (deliver job provider ev s)
step s (closes job) = close job s
step s (receives c) = some (receive c s)

pub then_run : (Manager → Option Manager) → Option Manager → Option Manager
then_run f none = none
then_run f (some s) = f s

unfoldable pub run : Manager → List Op → Option Manager
unfolding then_run
run s [] = some s
run s (o ∷ os) = then_run (λ t. run t os) (step s o)

receive-IsValid : (c : ℕ) (s : Manager) → IsValid s → IsValid (receive c s)
unfolding receive
receive-IsValid c s v = record {
  bound = v.bound;
  opened = λ j a h. ground (arith, v.opened j a);
  own = v.own;
}

-- A step from a valid manager does not panic and leaves a valid manager.
abbrev pub Steps : Option Manager → Type 0
Steps o = (s' : Manager) × (o ≡ some s') × IsValid s'

send-Steps :
    (s : Manager) (c : ℕ) (ev : Event)
    → IsValid s
    → (s.channels c).closed ≡ false
    → Steps (drop_reply (try_send s c (s.channels c) ev))
unfolding drop_reply try_send
send-Steps s c ev v open_c = elim (Bool-cases (ltb (length (s.channels c).buffer) buffer_size)) [
  | inl room ↦
      rw (open_c, room)
        ((
          record s {
            channels =
                update s.channels c
                  (record { buffer = (s.channels c).buffer ++ ev ∷ []; closed = false });
          },
          refl,
          record { bound = v.bound; opened = λ j a h. ground (arith, v.opened j a); own = v.own },
        ))
  | inr full ↦ rw (open_c, full) (s, refl, v)
]

deliver-Steps :
    (job provider : String) (ev : Event) (s : Manager)
    → IsValid s
    → Steps (drop_reply (deliver job provider ev s))
unfolding deliver drop_reply
deliver-Steps job provider ev s v = elim (Option-cases (Dict.get s.m job)) [
  | inl e ↦ rw e (s, refl, v)
  | inr (a, e) ↦ elim (Bool-cases (str_eq a.provider_id provider)) [
    | inl own ↦ rw (e, own) (send-Steps s a.ch ev v (v.opened job a e))
    | inr foreign ↦ rw (e, foreign) (s, refl, v)
  ]
]

pub close-Steps : (job : String) (s : Manager) → IsValid s → Steps (close job s)
unfolding close
close-Steps job s v = elim (Option-cases (Dict.get s.m job)) [
  | inl e ↦ rw e (s, refl, v)
  | inr (a, e) ↦
      rw (e, v.opened job a e)
        ((
          record s {
            m = Dict.delete s.m job;
            channels = update s.channels a.ch (record (s.channels a.ch) { closed = true });
          },
          refl,
          record {
            bound = λ j b. rw get-delete λ h. ground (arith, v.bound j b);
            opened = λ j b.
                rw get-delete λ h. ground (arith, eq_iff job j, v.opened j b, v.own job j a b e);
            own = λ j k b c.
                rw (get-delete s.m job j, get-delete s.m job k)
                  λ h g q. ground (arith, v.own j k b c);
          },
        ))
]

-- A job that was closed is not in flight.
pub has-close : (job : String) (s s' : Manager) → close job s ≡ some s' → has job s' ≡ false
unfolding close has
has-close job s s' = elim (Option-cases (Dict.get s.m job)) [
  | inl e ↦ rw e λ h. rw (← some-injective _ _ h, e) refl
  | inr (a, e) ↦ elim (Bool-cases (s.channels a.ch).closed) [
    | inl c ↦ rw (e, c) λ h. cc
    | inr c ↦ rw (e, c) λ h. rw (← some-injective _ _ h, get-delete, eq_refl job) refl
  ]
]

pub step-Steps : (s : Manager) (o : Op) → IsValid s → Steps (step s o)
unfolding step
step-Steps s (registers job provider) v =
    ((register job provider s).0, refl, register-IsValid job provider s v)
step-Steps s (delivers job provider ev) v = deliver-Steps job provider ev s v
step-Steps s (closes job) v = close-Steps job s v
step-Steps s (receives c) v = (receive c s, refl, receive-IsValid c s v)

pub run-Steps : (s : Manager) (os : List Op) → IsValid s → Steps (run s os)
unfolding run
run-Steps s [] v = (s, refl, v)
run-Steps s (o ∷ os) v = let (t, e, w) = step-Steps s o v in rw e (run-Steps t os w)

pub run-append :
    (s t u : Manager) (os ps : List Op)
    → run s os ≡ some t
    → run t ps ≡ some u
    → run s (os ++ ps) ≡ some u
unfolding run
run-append s t u [] ps = λ h g. rw (some-injective _ _ h) g
run-append s t u (o ∷ os) ps = elim (Option-cases (step s o)) [
  | inl e ↦ rw e λ h g. absurd cc
  | inr (r, e) ↦ rw e λ h g. run-append r t u os ps h g
]

-- Whatever calls are made on a new manager, none panics: no event is sent to a closed channel and
-- no channel is closed twice.
pub run-new : (os : List Op) → (s : Manager) × (run new os ≡ some s) × IsValid s
run-new os = run-Steps new os new-IsValid
