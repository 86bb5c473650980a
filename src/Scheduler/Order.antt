-- ===== src/Scheduler/Order.antt =====
-- coordinator/internal/scheduler/scheduler.go: the order that the candidates are sorted by.
use mathlib.Core.Path.{fun_ext}
use shared_compute.Common.{
  ℕ, ◌+◌, ◌%◌, ◌≡◌, refl, sym, subst, Bool, false, ltb, ◌==◌, if◌then◌else◌, arith,
}
use shared_compute.Common.Int64.{Int64, half, modulus}
use shared_compute.Common.Sort.{IsWeakOrder}
use shared_compute.Registry.{Provider}
use shared_compute.Scheduler.{less, tier_rank, thermal_score, battery_headroom}

module _ {ℓ} {A : Type ℓ} where
  -- Compare by a number, and where that is equal by the rest.
  pub by_key : (A → ℕ) → (A → A → Bool) → A → A → Bool
  by_key k rest a b = if k a == k b then rest a b else ltb (k a) (k b)

  pub by_key_down : (A → ℕ) → (A → A → Bool) → A → A → Bool
  by_key_down k rest a b = if k a == k b then rest a b else ltb (k b) (k a)

  by_key-IsWeakOrder :
      (k : A → ℕ) (rest : A → A → Bool) → IsWeakOrder rest → IsWeakOrder (by_key k rest)
  unfolding by_key
  by_key-IsWeakOrder k rest w = record {
    asym = λ a b h. ground (arith, w.asym a b);
    cotrans = λ a b c h g. ground (arith, w.cotrans a b c);
  }

  by_key_down-IsWeakOrder :
      (k : A → ℕ) (rest : A → A → Bool) → IsWeakOrder rest → IsWeakOrder (by_key_down k rest)
  unfolding by_key_down
  by_key_down-IsWeakOrder k rest w = record {
    asym = λ a b h. ground (arith, w.asym a b);
    cotrans = λ a b c h g. ground (arith, w.cotrans a b c);
  }

  none_less-IsWeakOrder : IsWeakOrder (λ (a b : A). false)
  none_less-IsWeakOrder = record { asym = λ a b h. refl; cotrans = λ a b c h g. refl }

-- A signed number as a number in the same order.
abbrev pub signed : Int64 → ℕ
signed a = (a + half) % modulus

-- The ranking: load, then tier, coolness, battery and memory, the last four downwards.
abbrev pub ranking : Provider → Provider → Bool
ranking =
    by_key (λ p. signed p.active)
      (by_key_down (λ p. tier_rank p.trust_tier)
        (by_key_down (λ p. thermal_score p.telemetry.thermal_state)
          (by_key_down (λ p. signed (battery_headroom p))
            (by_key_down (λ p. signed p.telemetry.mem_available_mb) (λ a b. false)))))

-- The chain of tests is that lexicographic order.
less-ranking : (a b : Provider) → less a b ≡ ranking a b
unfolding less by_key by_key_down
less-ranking a b = ground arith

pub ranking-IsWeakOrder : IsWeakOrder ranking
ranking-IsWeakOrder = by_key-IsWeakOrder _ _ (
    by_key_down-IsWeakOrder _ _ (
      by_key_down-IsWeakOrder _ _
        (by_key_down-IsWeakOrder _ _ (by_key_down-IsWeakOrder _ _ none_less-IsWeakOrder))))

-- The comparison that the candidates are sorted by is a strict weak order: no two providers each rank
-- before the other, and not ranking before is transitive.
pub less-IsWeakOrder : IsWeakOrder less
less-IsWeakOrder =
    subst IsWeakOrder (sym (fun_ext (λ a. fun_ext (λ b. less-ranking a b)))) ranking-IsWeakOrder
