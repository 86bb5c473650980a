-- ===== src/Registry/Slots.antt =====
-- The job counter of a provider, and what the registry remembers.
use shared_compute.Common.{
  ℕ, suc, ◌+◌, ◌-◌, ◌≤◌, ◌<◌, ◌≡◌, refl, ap, ◌∙◌, String, Bool, true, false, ◌||◌, Option, none,
  some, List, [], ◌∷◌, map, arith,
}
use shared_compute.Common.Int64.{half}
use shared_compute.Common.Dict
use shared_compute.Common.Dict.{Dict, StringSet, get-put}
use shared_compute.Registry.{
  Provider, Registry, acquire_slot, release_slot, models, mark_models, mark_all, serves, contains,
  snapshot,
}

-- A history of one provider's counter: jobs that start and jobs that end.
pub data SlotEvent : Type 0 where
  starts ends : SlotEvent

pub after_event : Provider → SlotEvent → Provider
after_event p starts = acquire_slot p
after_event p ends = release_slot p

pub after_events : Provider → List SlotEvent → Provider
after_events p [] = p
after_events p (e ∷ es) = after_events (after_event p e) es

abbrev pub count_starts : List SlotEvent → ℕ
count_starts [] = 0
count_starts (starts ∷ es) = suc (count_starts es)
count_starts (ends ∷ es) = count_starts es

-- The jobs that run after the events; an end with none running changes nothing.
abbrev pub running : ℕ → List SlotEvent → ℕ
running n [] = n
running n (starts ∷ es) = running (suc n) es
running n (ends ∷ es) = running (n - 1) es

active-acquire_slot : (p : Provider) → suc p.active < half → (acquire_slot p).active ≡ suc p.active
unfolding acquire_slot
active-acquire_slot p h = ground arith

active-release_slot : (p : Provider) → p.active < half → (release_slot p).active ≡ p.active - 1
unfolding release_slot
active-release_slot p h = ground arith

-- From fewer than 2 ^ 63 jobs, running and to be started, the counter is the number of jobs that
-- run: it neither wraps nor falls below 0, whatever the order of the starts and the ends.
pub active-after_events :
    (p : Provider) (es : List SlotEvent)
    → p.active + count_starts es < half
    → (after_events p es).active ≡ running p.active es
unfolding after_events after_event
active-after_events p [] h = refl
active-after_events p (starts ∷ es) h =
    let e = active-acquire_slot p (omega arith) in
    active-after_events (acquire_slot p) es (rw e (omega arith)) ∙ ap (λ n. running n es) e
active-after_events p (ends ∷ es) h =
    let e = active-release_slot p (omega arith) in
    active-after_events (release_slot p) es (rw e (omega arith)) ∙ ap (λ n. running n es) e

running-le : (n : ℕ) (es : List SlotEvent) → running n es ≤ n + count_starts es
running-le n [] = omega arith
running-le n (starts ∷ es) = omega (arith, running-le (suc n) es)
running-le n (ends ∷ es) = omega (arith, running-le (n - 1) es)

-- A job that takes a slot before the events and gives it back after them.
pub active-released :
    (p : Provider) (es : List SlotEvent)
    → p.active + suc (count_starts es) < half
    → (release_slot (after_events (acquire_slot p) es)).active ≡ running (suc p.active) es - 1
active-released p es h =
    let one = active-acquire_slot p (omega arith) in
    let all =
      active-after_events (acquire_slot p) es (rw one (omega arith)) ∙ ap (λ n. running n es) one in
    active-release_slot (after_events (acquire_slot p) es)
      (omega (arith, all, running-le (suc p.active) es))
    ∙ ap (λ n. n - 1) all

pub any_serves : String → List Provider → Bool
any_serves m [] = false
any_serves m (p ∷ ps) = serves p m || any_serves m ps

abbrev is_some {ℓ} : {A : Type ℓ} → Option A → Bool
is_some none = false
is_some (some a) = true

contains-keys {ℓ} :
    {V : Type ℓ} (m : String) (d : Dict V)
    → contains m (map (λ (e : String × V). e.0) d) ≡ is_some (Dict.get d m)
unfolding contains Dict.get
contains-keys m [] = refl
contains-keys m ((k, v) ∷ d) = ground (arith, contains-keys m d)

get-mark_models :
    (m : String) (ms : List String) (seen : StringSet)
    → is_some (Dict.get (mark_models ms seen) m) ≡ (contains m ms || is_some (Dict.get seen m))
unfolding mark_models contains
get-mark_models m [] seen = refl
get-mark_models m (k ∷ ms) seen =
    get-mark_models m ms (Dict.put seen k tt) ∙ ground (arith, get-put seen k m tt)

get-mark_all :
    (m : String) (ps : List Provider) (seen : StringSet)
    → is_some (Dict.get (mark_all ps seen) m) ≡ (any_serves m ps || is_some (Dict.get seen m))
unfolding mark_all any_serves serves
get-mark_all m [] seen = refl
get-mark_all m (p ∷ ps) seen =
    get-mark_all m ps (mark_models p.capabilities.models seen)
    ∙ ground (arith, get-mark_models m p.capabilities.models seen)

-- A model is listed exactly if some connected provider serves it.
pub contains-models :
    (r : Registry) (m : String) → contains m (models r) ≡ any_serves m (snapshot r)
unfolding models
contains-models r m =
    contains-keys m (mark_all (snapshot r) [])
    ∙ get-mark_all m (snapshot r) []
    ∙ unfold Dict.get in ground arith
