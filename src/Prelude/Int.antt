-- ===== src/Prelude/Int.antt =====
-- `i64` as an integer, and the casts `as i64` and `as u64`.
use Prim.Native.Nat.{ℕ, ◌-◌, ◌^◌, ◌<◌}
use mathlib.Core.Path.{◌≡◌}
use mathlib.Core.Bool.{Bool, true, false}
use native.Mathlib.Omega.{arith}
use zenth_dht.Prelude.Tests.{ltb, leb, if◌then◌else◌}

-- `negsuc n` is -(n + 1).
pub data ℤ : Type 0 where
  pos : ℕ → ℤ
  negsuc : ℕ → ℤ

abbrev pub lt_ℤb : ℤ → ℤ → Bool
lt_ℤb (pos a) (pos b) = ltb a b
lt_ℤb (pos a) (negsuc b) = false
lt_ℤb (negsuc a) (pos b) = true
lt_ℤb (negsuc a) (negsuc b) = ltb b a

abbrev pub le_ℤb : ℤ → ℤ → Bool
le_ℤb (pos a) (pos b) = leb a b
le_ℤb (pos a) (negsuc b) = false
le_ℤb (negsuc a) (pos b) = true
le_ℤb (negsuc a) (negsuc b) = leb b a

abbrev pub i64_bound : ℕ
i64_bound = 2 ^ 63

abbrev pub u64_bound : ℕ
u64_bound = 2 ^ 64

-- `n as i64` for an `n` of type u64
abbrev pub as_i64 : ℕ → ℤ
as_i64 n = if ltb n i64_bound then pos n else negsuc (u64_bound - 1 - n)

-- `i as u64` for an `i` of type i64
abbrev pub as_u64 : ℤ → ℕ
as_u64 (pos n) = n
as_u64 (negsuc n) = u64_bound - 1 - n

pub as_u64-as_i64 : (n : ℕ) → n < u64_bound → as_u64 (as_i64 n) ≡ n
as_u64-as_i64 n h = ground arith
