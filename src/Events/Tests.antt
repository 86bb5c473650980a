-- ===== src/Events/Tests.antt =====
-- Runs of the ring of events, and the theorems at them.
use shared_compute.Common.{ℕ, suc, ◌≡◌, refl, String, false, List, [], ◌∷◌, length}
use shared_compute.Events.{
  Entry, Event, Ring, Text, new_ring, push, snapshot, len, recent, counts, ring_capacity,
  recent_limit, passes,
}
use shared_compute.Events.Refine.{push_all, keep_last, events_after, snapshot-new_ring}

abbrev entry : ℕ → String → Entry
entry now level = record { now = now; level = level; msg = "m"; attrs = [] }

abbrev twenty : ℕ → List Entry
twenty ℕ.zero = []
twenty (suc n) = entry n "ERROR" ∷ twenty n

abbrev plain : Text
plain = record {
  to_upper = λ s. s;
  to_lower = λ s. s;
  trim_space = λ s. s;
  contains = λ s q. false;
}

abbrev warned : Ring
warned = (push (push (new_ring 0) (entry 5 "WARN")).0 (entry 9 "ERROR")).0

snapshot_wraps : length (snapshot (push_all (new_ring 0) (twenty 20))) ≡ 16
unfolding new_ring push snapshot push_all
snapshot_wraps = refl

snapshot-new_ring_example :
    snapshot (push_all (new_ring 0) (twenty 20))
    ≡ keep_last (ring_capacity 0) (events_after 0 (twenty 20))
snapshot-new_ring_example = snapshot-new_ring 0 (twenty 20)

recent_newest : length (recent plain (push_all (new_ring 0) (twenty 20)) 3 "ERROR" "" 7) ≡ 3
unfolding new_ring push snapshot push_all recent passes shared_compute.Events.recent_loop
recent_newest = refl
