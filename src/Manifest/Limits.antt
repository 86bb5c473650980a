-- ===== src/Manifest/Limits.antt =====
-- The envelope that the coordinator attaches lies within the ceilings of a node.
use shared_compute.Common.{◌≡◌, ◌≤◌, false, arith}
use shared_compute.Common.Int64.{Int64, IsWord}
use shared_compute.Manifest.{
  default_node_policy, exceeds, has_nonpositive, default_limits, lease_seconds,
}

pub default_limits-within :
    (n : Int64)
    → IsWord n
    → (exceeds (default_limits n) default_node_policy ≡ false)
      × (has_nonpositive (default_limits n) ≡ false)
unfolding default_limits
default_limits-within n h = (ground (arith, h), ground (arith, h))

pub lease_seconds-bounds : (d : Int64) → IsWord d → (30 ≤ lease_seconds d) × (lease_seconds d ≤ 240)
unfolding lease_seconds
lease_seconds-bounds d h = (ground (arith, h), ground (arith, h))
