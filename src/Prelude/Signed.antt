-- ===== src/Prelude/Signed.antt =====
-- Go's `int64` as the 64 bits of its two's complement: a number below 2 ^ 64, of which the upper half
-- stands for the negative ones.
use Prim.Native.Nat.{ℕ, ◌+◌, ◌-◌, ◌%◌, ◌^◌, ◌≤◌, ◌<◌}
use mathlib.Core.Path.{◌≡◌}
use mathlib.Core.Bool.{Bool}
use native.Mathlib.Omega.{arith}
use machmqtt_dashboard.Prelude.Tests.{leb, if◌then◌else◌, add_u64}

abbrev pub Int64 : Type 0
Int64 = ℕ

abbrev pub add_i64 : Int64 → Int64 → Int64
add_i64 a b = add_u64 a b

abbrev pub sub_i64 : Int64 → Int64 → Int64
sub_i64 a b = (a + (2 ^ 64 - b)) % 2 ^ 64

abbrev pub minus_one : Int64
minus_one = 2 ^ 64 - 1

abbrev pub max_int64 : Int64
max_int64 = 2 ^ 63 - 1

abbrev pub min_int64 : Int64
min_int64 = 2 ^ 63

-- `a <= b` of two signed numbers.
abbrev pub leb_i64 : Int64 → Int64 → Bool
leb_i64 a b = leb ((a + 2 ^ 63) % 2 ^ 64) ((b + 2 ^ 63) % 2 ^ 64)

abbrev pub max_i64 : Int64 → Int64 → Int64
max_i64 a b = if leb_i64 b a then a else b

pub max_i64-left : (a b : ℕ) → b ≤ a → a < 2 ^ 63 → max_i64 a b ≡ a
max_i64-left a b h k = ground arith

pub max_i64-right : (a b : ℕ) → a ≤ b → b < 2 ^ 63 → max_i64 a b ≡ b
max_i64-right a b h k = ground arith

pub sub_i64-add : (a b : ℕ) → a + b < 2 ^ 63 → sub_i64 (a + b) a ≡ b
sub_i64-add a b h = omega arith
