-- ===== src/Events.antt =====
-- coordinator/internal/events/events.go: the bounded ring of operational events. Each method is a
-- function on the ring; the time that the code reads is an argument. The atomic counter and the
-- write under the lock are one step. `strings` functions on Unicode text are a parameter.
pub mod Refine
pub mod Query
mod Tests
use shared_compute.Common.{
  ℕ, suc, ◌+◌, ◌%◌, String, Bool, true, false, not, ◌&&◌, ◌||◌, Option, none, some, List, [], ◌∷◌,
  ◌++◌, reverse, length, set, take, drop, replicate, ltb, leb, ◌==◌, str_eq, if◌then◌else◌,
}
use shared_compute.Common.Int64.{Int64, modulus, lt64, le64}
use shared_compute.Common.Dict.{Dict}

pub record Event : Type 0 where
  pub seq : ℕ
  pub ts : ℕ
  pub level : String
  pub msg : String
  pub attrs : Dict String

-- The zero value that `make` fills the buffer with.
abbrev pub zero_event : Event
zero_event = record { seq = 0; ts = 0; level = ""; msg = ""; attrs = [] }

pub record Ring : Type 0 where
  pub buf : List Event
  pub head : ℕ
  pub full : Bool
  pub seq : ℕ

abbrev pub ring_capacity : Int64 → ℕ
ring_capacity capacity = if lt64 capacity 16 then 16 else capacity

pub new_ring : Int64 → Ring
new_ring capacity = record {
  buf = replicate (ring_capacity capacity) zero_event;
  head = 0;
  full = false;
  seq = 0;
}

-- The arguments of one Push, with the time that it reads.
pub record Entry : Type 0 where
  pub now : ℕ
  pub level : String
  pub msg : String
  pub attrs : Dict String

-- The event that Push builds after `seq` earlier ones; `seq.Add(1)` wraps.
abbrev pub event_after : ℕ → Entry → Event
event_after seq e = record {
  seq = (seq + 1) % modulus;
  ts = e.now;
  level = e.level;
  msg = e.msg;
  attrs = e.attrs;
}

pub push : Ring → Entry → Ring × Event
push r e =
    let ev = event_after r.seq e in
    let head = (r.head + 1) % length r.buf in
    (
      record {
        buf = set r.buf r.head ev;
        head = head;
        full = if head == 0 then true else r.full;
        seq = ev.seq;
      },
      ev,
    )

-- Oldest first.
pub snapshot : Ring → List Event
snapshot r = if r.full then drop r.head r.buf ++ take r.head r.buf else take r.head r.buf

pub len : Ring → ℕ
len r = if r.full then length r.buf else r.head

-- What the code uses of package strings.
pub record Text : Type 0 where
  pub to_upper : String → String
  pub to_lower : String → String
  pub trim_space : String → String
  pub contains : String → String → Bool

-- The `limit` that Recent works with.
abbrev pub recent_limit : Int64 → ℕ
recent_limit limit = if le64 limit 0 || lt64 1000 limit then 200 else limit

module _ (t : Text) where
  any_attr : String → Dict String → Bool
  any_attr q [] = false
  any_attr q ((k, v) ∷ m) =
      (t.contains (t.to_lower k) q || t.contains (t.to_lower v) q) || any_attr q m

  pub matches : Event → String → Bool
  unfolding any_attr
  matches ev q = t.contains (t.to_lower ev.msg) q || any_attr q ev.attrs

  -- The two `continue` tests of Recent.
  pub passes : String → String → Event → Bool
  passes level q ev = (str_eq level "" || str_eq ev.level level) && (str_eq q "" || matches ev q)

  -- The loop of Recent over the snapshot, newest first; `room` is `limit - len(out)`.
  pub recent_loop : ℕ → String → String → ℕ → List Event → List Event
  recent_loop room level q since [] = []
  recent_loop ℕ.zero level q since (ev ∷ rest) = []
  recent_loop (suc room) level q since (ev ∷ rest) =
      let kept = ev ∷ recent_loop room level q since rest in
      let skipped = recent_loop (suc room) level q since rest in
      if leb ev.seq since then [] else if passes level q ev then kept else skipped

  pub recent : Ring → Int64 → String → String → ℕ → List Event
  recent r limit level q since =
      recent_loop (recent_limit limit) (t.to_upper (t.trim_space level))
        (t.to_lower (t.trim_space q)) since (reverse (snapshot r))

pub record Tally : Type 0 where
  pub warns : ℕ
  pub errs : ℕ
  pub last_err : Option Event

abbrev pub or_else : Option Event → Event → Option Event
or_else none ev = some ev
or_else (some e) ev = some e

-- One round of Counts.
pub tally : Event → Tally → Tally
tally ev c =
    if str_eq ev.level "WARN"
    then record c { warns = c.warns + 1 }
    else if str_eq ev.level "ERROR"
    then record c { errs = c.errs + 1; last_err = or_else c.last_err ev }
    else c

pub counts_loop : ℕ → List Event → Tally → Tally
counts_loop cutoff [] c = c
counts_loop cutoff (ev ∷ rest) c =
    let next = counts_loop cutoff rest (tally ev c) in if ltb ev.ts cutoff then c else next

-- `cutoff` is the time now less the window.
pub counts : Ring → ℕ → Tally
counts r cutoff =
    counts_loop cutoff (reverse (snapshot r)) (record { warns = 0; errs = 0; last_err = none })
