-- ===== src/Scheduler.antt =====
-- coordinator/internal/scheduler/scheduler.go. `sort.Slice` is the parameter `sorter`; a provider's
-- counters are read once, at the instant of the call.
pub mod Order
pub mod Choice
mod Tests
use shared_compute.Common.{
  ℕ, ◌+◌, String, Bool, true, false, not, ◌&&◌, Option, none, some, List, [], ◌∷◌, ◌++◌, ◌||◌, ltb,
  ◌==◌, ◌||◌, str_eq, if◌then◌else◌,
}
use shared_compute.Common.Int64.{Int64, lt64, eq64}
use shared_compute.Common.Sort.{Sorter}
use shared_compute.Registry
use shared_compute.Registry.{Provider, Registry, serves}

pub data Error : Type 0 where
  no_provider tier_unmet caps_unmet : Error

pub data Result {ℓ} (A : Type ℓ) : Type ℓ where
  ok : A → Result A
  err : Error → Result A

pub record Requirements : Type 0 where
  pub model : String
  pub min_tier : String
  pub min_context : Int64
  pub hw_class : String

unfoldable pub tier_rank : String → ℕ
tier_rank t = if str_eq t "confidential" then 2 else if str_eq t "device_attested" then 1 else 0

unfoldable pub class_rank : String → ℕ
class_rank c =
    if str_eq c "CONFIDENTIAL_GPU"
    then 5
    else if str_eq c "XL"
    then 4
    else if str_eq c "LARGE"
    then 3
    else if str_eq c "MEDIUM"
    then 2
    else if str_eq c "SMALL"
    then 1
    else 0

unfoldable pub thermal_score : String → ℕ
thermal_score s =
    if str_eq s "nominal"
    then 3
    else if str_eq s ""
    then 3
    else if str_eq s "fair"
    then 2
    else if str_eq s "serious"
    then 1
    else 0

battery_of : Option Bool → Option Int64 → Int64
battery_of none pct = 100
battery_of (some true) pct = 100
battery_of (some false) none = 100
battery_of (some false) (some pct) = pct

unfoldable pub battery_headroom : Provider → Int64
unfolding battery_of
battery_headroom p = battery_of p.telemetry.charging p.telemetry.battery_pct

-- The comparison that the candidates are sorted by.
pub less : Provider → Provider → Bool
less a b =
    if not (eq64 a.active b.active)
    then lt64 a.active b.active
    else if not (tier_rank a.trust_tier == tier_rank b.trust_tier)
    then ltb (tier_rank b.trust_tier) (tier_rank a.trust_tier)
    else if not (thermal_score a.telemetry.thermal_state == thermal_score b.telemetry.thermal_state)
    then ltb (thermal_score b.telemetry.thermal_state) (thermal_score a.telemetry.thermal_state)
    else if not (eq64 (battery_headroom a) (battery_headroom b))
    then lt64 (battery_headroom b) (battery_headroom a)
    else lt64 b.telemetry.mem_available_mb a.telemetry.mem_available_mb

-- The variables of the loop in Eligible.
pub record Scan : Type 0 where
  pub candidates : List Provider
  pub saw_model : Bool
  pub saw_tier : Bool

-- The two `continue`s on resources.
pub lacks_resources : Requirements → Provider → Bool
lacks_resources req p =
    let max = p.capabilities.max_context in
    if lt64 0 req.min_context && lt64 0 max && lt64 max req.min_context
    then true
    else ltb 0 (class_rank req.hw_class)
      && ltb (class_rank p.capabilities.hardware_class) (class_rank req.hw_class)

pub visit : Requirements → Scan → Provider → Scan
visit req s p =
    if not (serves p req.model)
    then s
    else if p.draining || ltb (tier_rank p.trust_tier) (tier_rank req.min_tier)
    then record s { saw_model = true }
    else if lacks_resources req p
    then record s { saw_model = true; saw_tier = true }
    else record { candidates = s.candidates ++ p ∷ []; saw_model = true; saw_tier = true }

pub scan : Requirements → Scan → List Provider → Scan
scan req s [] = s
scan req s (p ∷ ps) = scan req (visit req s p) ps

why_none : Requirements → Scan → Error
why_none req s =
    if not s.saw_model
    then no_provider
    else if ltb 0 (tier_rank req.min_tier) && not s.saw_tier
    then tier_unmet
    else caps_unmet

module _ (sorter : Sorter Provider) where
  ranked : Requirements → Scan → List Provider → Result (List Provider)
  ranked req s [] = err (why_none req s)
  ranked req s (c ∷ cs) = ok (sorter.sort less (c ∷ cs))

  pub eligible : Registry → Requirements → Result (List Provider)
  unfolding ranked
  eligible reg req =
      let s =
        scan req (record { candidates = []; saw_model = false; saw_tier = false })
          (Registry.snapshot reg) in
      ranked req s s.candidates

  first : Result (List Provider) → Result (Option Provider)
  first (err e) = err e
  first (ok []) = ok none
  first (ok (p ∷ ps)) = ok (some p)

  -- `candidates[0]`: `ok none` is the index panic on an empty slice.
  pub pick : Registry → Requirements → Result (Option Provider)
  unfolding first
  pick reg req = first (eligible reg req)
