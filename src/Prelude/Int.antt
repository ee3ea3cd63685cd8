-- ===== src/Prelude/Int.antt =====
-- Signed integers, and the two's complement cast of a count to `i32`.
use Prim.Native.Nat.{ℕ, zero, suc, ◌-◌, ◌%◌}
use mathlib.Core.Bool.{Bool, true, false}
use swarm_intelligence_engin.Prelude.Tests.{ltb, leb, ◌==◌, if◌then◌else◌}

-- `negsuc n` is -(n + 1).
pub data ℤ : Type 0 where
  pos : ℕ → ℤ
  negsuc : ℕ → ℤ

abbrev pub ltℤ : ℤ → ℤ → Bool
ltℤ (pos a) (pos b) = ltb a b
ltℤ (pos a) (negsuc b) = false
ltℤ (negsuc a) (pos b) = true
ltℤ (negsuc a) (negsuc b) = ltb b a

abbrev pub leℤ : ℤ → ℤ → Bool
leℤ (pos a) (pos b) = leb a b
leℤ (pos a) (negsuc b) = false
leℤ (negsuc a) (pos b) = true
leℤ (negsuc a) (negsuc b) = leb b a

-- `n as i32` of a count that is not negative.
abbrev pub as_i32 : ℕ → ℤ
as_i32 n =
    let low = n % 4294967296 in if ltb low 2147483648 then pos low else negsuc (4294967295 - low)

-- `n as i32` of an `i64`: -(n + 1) has the low bits 2 ^ 32 - 1 - n.
abbrev pub cast_i32 : ℤ → ℤ
cast_i32 (pos n) = as_i32 n
cast_i32 (negsuc n) = as_i32 (4294967295 - n % 4294967296)

abbrev pub same_ℤ : ℤ → ℤ → Bool
same_ℤ (pos a) (pos b) = a == b
same_ℤ (negsuc a) (negsuc b) = a == b
same_ℤ a b = false

abbrev max_i32 : ℤ
max_i32 = pos 2147483647

abbrev min_i32 : ℤ
min_i32 = negsuc 2147483647

-- `z + 1` of an `i32`, in a build that wraps around.
abbrev pub next_i32 : ℤ → ℤ
next_i32 (negsuc zero) = pos 0
next_i32 (negsuc (suc n)) = negsuc n
next_i32 (pos n) = if n == 2147483647 then min_i32 else pos (suc n)

-- The larger of the two.
abbrev pub maxℤ : ℤ → ℤ → ℤ
maxℤ a b = if ltℤ a b then b else a
