-- ===== src/Jobs.antt =====
-- coordinator/internal/jobs/jobs.go: the delivery channels of the jobs in flight. Channels are
-- shared: Register hands one to the relay and keeps it in its map, so they stand in a store under
-- addresses. `none` is a panic, such as a send on a closed channel.
pub mod Valid
pub mod Isolation
mod Tests
use shared_compute.Common.{
  ℕ, ◌+◌, String, Bool, true, false, not, Option, none, some, List, [], ◌∷◌, ◌++◌, length, ltb,
  ◌==◌, str_eq, if◌then◌else◌,
}
use shared_compute.Common.Dict
use shared_compute.Common.Dict.{Dict}

pub data Kind : Type 0 where
  chunk done error : Kind

-- `raw` is the JSON of the frame.
pub record Event : Type 0 where
  pub kind : Kind
  pub raw : String

pub record Channel : Type 0 where
  pub buffer : List Event
  pub closed : Bool

pub record Assignment : Type 0 where
  pub provider_id : String
  pub ch : ℕ

pub record Manager : Type 0 where
  pub m : Dict Assignment
  pub channels : ℕ → Channel
  pub next : ℕ

abbrev pub buffer_size : ℕ
buffer_size = 64

abbrev pub update : (ℕ → Channel) → ℕ → Channel → ℕ → Channel
update f c v d = if c == d then v else f d

abbrev pub new : Manager
new = record { m = []; channels = λ c. record { buffer = []; closed = false }; next = 0 }

pub register : String → String → Manager → Manager × ℕ
register job provider s = (
  record {
    m = Dict.put s.m job (record { provider_id = provider; ch = s.next });
    channels = update s.channels s.next (record { buffer = []; closed = false });
    next = s.next + 1;
  },
  s.next,
)

-- `select { case ch <- ev: ...; default: ... }`
try_send : Manager → ℕ → Channel → Event → Option (Manager × Bool)
try_send s c ch ev =
    if ch.closed
    then none
    else if ltb (length ch.buffer) buffer_size
    then some (
      record s { channels = update s.channels c (record ch { buffer = ch.buffer ++ ev ∷ [] }) },
      true,
    )
    else some (s, false)

deliver_to : Option Assignment → String → Event → Manager → Option (Manager × Bool)
unfolding try_send
deliver_to none provider ev s = some (s, false)
deliver_to (some a) provider ev s =
    if not (str_eq a.provider_id provider)
    then some (s, false)
    else try_send s a.ch (s.channels a.ch) ev

pub deliver : String → String → Event → Manager → Option (Manager × Bool)
unfolding deliver_to
deliver job provider ev s = deliver_to (Dict.get s.m job) provider ev s

close_channel : ℕ → Channel → Manager → Option Manager
close_channel c ch s =
    if ch.closed
    then none
    else some (record s { channels = update s.channels c (record ch { closed = true }) })

close_assigned : String → Option Assignment → Manager → Option Manager
unfolding close_channel
close_assigned job none s = some s
close_assigned job (some a) s =
    close_channel a.ch (s.channels a.ch) (record s { m = Dict.delete s.m job })

pub close : String → Manager → Option Manager
unfolding close_assigned
close job s = close_assigned job (Dict.get s.m job) s

is_some : Option Assignment → Bool
is_some none = false
is_some (some a) = true

pub has : String → Manager → Bool
unfolding is_some
has job s = is_some (Dict.get s.m job)

-- The relay takes the oldest event of its channel, if there is one.
pub receive : ℕ → Manager → Manager
receive c s = record s { channels = update s.channels c (pop (s.channels c)) }
  where
    pop : Channel → Channel
    pop ch = record ch { buffer = elim ch.buffer [ [] ↦ [] | ev ∷ rest ↦ rest ] }
