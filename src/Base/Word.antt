-- ===== src/Base/Word.antt =====
-- Go's `int64` (and `int`, on a 64-bit machine): an integer kept in range by wrap-around.
use Prim.Native.Nat.{ℕ, ◌-◌, ◌%◌, ◌^◌}
use mathlib.Core.Path.{◌≡◌}
use native.Mathlib.Omega.{arith}
use zia.Base.Tests.{ltb, if◌then◌else◌}
use zia.Base.Int.{ℤ, pos, negsuc, ◌+ℤ◌, ◌-ℤ◌, ◌*ℤ◌, ◌≤ℤ◌, +ℤ_parts, -ℤ_parts}

-- The number that a 64-bit pattern stands for.
abbrev signed64 : ℕ → ℤ
signed64 w = if ltb w (2 ^ 63) then pos w else negsuc (2 ^ 64 - 1 - w)

-- The int64 that an exact result wraps to.
unfoldable pub i64 : ℤ → ℤ
i64 (pos n) = signed64 (n % 2 ^ 64)
i64 (negsuc n) = signed64 (2 ^ 64 - 1 - n % 2 ^ 64)

abbrev pub min_i64 : ℤ
min_i64 = negsuc (2 ^ 63 - 1)

abbrev pub max_i64 : ℤ
max_i64 = pos (2 ^ 63 - 1)

abbrev pub InRange : ℤ → Type 0
InRange a = (min_i64 ≤ℤ a) × (a ≤ℤ max_i64)

abbrev pub add64 : ℤ → ℤ → ℤ
add64 a b = i64 (a +ℤ b)

abbrev pub sub64 : ℤ → ℤ → ℤ
sub64 a b = i64 (a -ℤ b)

abbrev pub mul64 : ℤ → ℤ → ℤ
mul64 a b = i64 (a *ℤ b)

-- A result in range is exact.
pub i64_exact : (a : ℤ) → InRange a → i64 a ≡ a
unfolding i64
i64_exact a h = ground arith

pub i64-InRange : (a : ℤ) → InRange (i64 a)
unfolding i64
i64-InRange a = ground arith

-- What was added can be taken away again, whatever wrapped in between.
pub sub64-add64 : (a b : ℤ) → InRange a → sub64 (add64 a b) b ≡ a
unfolding i64
sub64-add64 a b h = ground (arith, +ℤ_parts a b, -ℤ_parts (i64 (a +ℤ b)) b)

-- Wrapping early makes no difference to a sum.
pub i64-add : (a b : ℤ) → i64 (i64 a +ℤ b) ≡ i64 (a +ℤ b)
unfolding i64
i64-add a b = ground (arith, +ℤ_parts (i64 a) b, +ℤ_parts a b)

pub i64-sub : (a b : ℤ) → i64 (i64 a -ℤ b) ≡ i64 (a -ℤ b)
unfolding i64
i64-sub a b = ground (arith, -ℤ_parts (i64 a) b, -ℤ_parts a b)
