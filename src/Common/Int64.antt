-- ===== src/Common/Int64.antt =====
-- Go's `int` and `int64` on a 64-bit machine: a value is its two's-complement bit pattern, a
-- number below 2 ^ 64, so that addition, subtraction and multiplication wrap by `%` and only the
-- comparisons look at the sign.
use Prim.Native.Nat.{ℕ, ◌+◌, ◌-◌, ◌*◌, ◌/◌, ◌%◌, ◌<◌}
use mathlib.Core.Path.{◌≡◌, refl}
use mathlib.Core.Bool.{Bool, true}
use native.Mathlib.Omega.{arith}
use shared_compute.Common.Tests.{ltb, leb, ◌==◌, if◌then◌else◌}

abbrev pub Int64 : Type 0
Int64 = ℕ

-- 2 ^ 64 and 2 ^ 63.
abbrev pub modulus : ℕ
modulus = 0x1_0000_0000_0000_0000

abbrev pub half : ℕ
half = 0x8000_0000_0000_0000

-- The patterns that a 64-bit word can hold.
abbrev pub IsWord : Int64 → Type 0
IsWord a = a < modulus

-- The patterns of the numbers that are not negative.
abbrev pub IsNonneg : Int64 → Type 0
IsNonneg a = a < half

abbrev pub add64 : Int64 → Int64 → Int64
add64 a b = (a + b) % modulus

abbrev pub neg64 : Int64 → Int64
neg64 a = (modulus - a % modulus) % modulus

abbrev pub sub64 : Int64 → Int64 → Int64
sub64 a b = (a + (modulus - b % modulus)) % modulus

abbrev pub mul64 : Int64 → Int64 → Int64
mul64 a b = (a * b) % modulus

abbrev pub is_neg : Int64 → Bool
is_neg a = leb half a

-- a < b and a ≤ b as signed numbers.
abbrev pub lt64 : Int64 → Int64 → Bool
lt64 a b = ltb ((a + half) % modulus) ((b + half) % modulus)

abbrev pub le64 : Int64 → Int64 → Bool
le64 a b = leb ((a + half) % modulus) ((b + half) % modulus)

abbrev pub eq64 : Int64 → Int64 → Bool
eq64 a b = ((a + half) % modulus) == ((b + half) % modulus)

-- Go's division truncates towards zero; the divisor is a positive constant.
abbrev pub div64 : Int64 → ℕ → Int64
div64 a d = if is_neg a then neg64 (neg64 a / d) else a / d

pub sub64-add64 : (a b : Int64) → IsWord a → sub64 (add64 a b) b ≡ a
sub64-add64 a b h = omega arith

lt64_signs : lt64 (neg64 1) 0 ≡ true
lt64_signs = refl

div64_truncates : div64 (neg64 7) 2 ≡ neg64 3
div64_truncates = refl
