-- ===== src/Marketplace.antt =====
-- coordinator/internal/marketplace/marketplace.go: the store of outstanding quotes. Clock readings
-- and random ids are arguments; every method runs under the lock, so it is one step. The volume and
-- price estimates of a quote, which are floats, are the opaque `Offer`; `Spec`, which Accept runs,
-- keeps its class and its size.
pub mod Quotes
pub mod Bounds
mod Tests
use shared_compute.Common.{
  ℕ, ◌+◌, ◌*◌, ◌≤◌, String, Bool, true, false, not, ◌&&◌, ◌||◌, Option, none, some, List, [], ◌∷◌,
  length, ltb, leb, if◌then◌else◌, str_eq,
}
use shared_compute.Common.Int64.{Int64, le64}
use shared_compute.Common.Dict
use shared_compute.Common.Dict.{Dict}

module _ (Offer : Type 0) where
  -- `offer` is the spec, the estimate, the cost and the Council outcome.
  pub record Quote : Type 0 where
    pub id : String
    pub key_id : String
    pub model : String
    pub offer : Offer
    pub created_at : ℕ
    pub expires_at : ℕ
    pub accepted : Bool
    pub accepted_at : ℕ

  pub record Store : Type 0 where
    pub m : Dict Quote
    pub ttl : ℕ
    pub max : ℕ

module _ {Offer : Type 0} where
  -- now.After(q.ExpiresAt)
  abbrev pub expired : Quote Offer → ℕ → Bool
  expired q now = ltb q.expires_at now

  -- The loop of gcLocked over the entries of the map that it deletes from.
  pub gc_loop : ℕ → Dict (Quote Offer) → Dict (Quote Offer) → Dict (Quote Offer)
  gc_loop now [] m = m
  gc_loop now ((id, q) ∷ rest) m = gc_loop now rest (if expired q now then Dict.delete m id else m)

  pub gc : ℕ → Dict (Quote Offer) → Dict (Quote Offer)
  unfolding gc_loop
  gc now m = gc_loop now m m

  -- The scan for the oldest quote: its id and its time, or the empty id before the first.
  find_oldest : String → ℕ → Dict (Quote Offer) → String
  find_oldest oldest at [] = oldest
  find_oldest oldest at ((id, q) ∷ rest) =
      let better = str_eq oldest "" || ltb q.created_at at in
      find_oldest (if better then id else oldest) (if better then q.created_at else at) rest

  make_room : ℕ → Dict (Quote Offer) → Dict (Quote Offer)
  unfolding find_oldest
  make_room max m = if leb max (length m) then Dict.delete m (find_oldest "" 0 m) else m

  abbrev pub new_quote : String → ℕ → ℕ → String → String → Offer → Quote Offer
  new_quote id now ttl key_id model offer = record {
    id = id;
    key_id = key_id;
    model = model;
    offer = offer;
    created_at = now;
    expires_at = now + ttl;
    accepted = false;
    accepted_at = 0;
  }

  -- `id` is "wl_" and the fresh random part.
  pub create : String → ℕ → String → String → Offer → Store Offer → Store Offer × Quote Offer
  unfolding gc make_room
  create id now key_id model offer s =
      let q = new_quote id now s.ttl key_id model offer in
      (record s { m = Dict.put (make_room s.max (gc now s.m)) id q }, q)

  unfoldable pub live_quote : ℕ → Option (Quote Offer) → Option (Quote Offer)
  live_quote now none = none
  live_quote now (some q) = if expired q now then none else some q

  unfoldable pub get : String → ℕ → Store Offer → Option (Quote Offer)
  unfolding live_quote
  get id now s = live_quote now (Dict.get s.m id)

  unfoldable pub accept :
      String → ℕ → Option (Quote Offer) → Store Offer → Store Offer × Option (Quote Offer)
  accept id now none s = (s, none)
  accept id now (some q) s =
      let q' = record q { accepted = true; accepted_at = now } in
      if expired q now || q.accepted
      then (s, none)
      else (record s { m = Dict.put s.m id q' }, some q')

  unfoldable pub mark_accepted : String → ℕ → Store Offer → Store Offer × Option (Quote Offer)
  unfolding accept
  mark_accepted id now s = accept id now (Dict.get s.m id) s

-- Ten minutes, in nanoseconds, for a lifetime that is not positive.
abbrev pub lifetime : Int64 → ℕ
lifetime ttl = if le64 ttl 0 then 600_000_000_000 else ttl

abbrev pub new_store : (Offer : Type 0) → Int64 → Store Offer
new_store Offer ttl = record { m = []; ttl = lifetime ttl; max = 2048 }
