-- ===== src/Prelude/Int.antt =====
-- Python's integers, where the sign matters: `negsuc n` is -(n + 1).
use Prim.Native.Nat.{ℕ}
use mathlib.Core.Bool.{Bool, true, false}
use fleet_memory.Prelude.Tests.{◌==◌, leb}

pub data ℤ : Type 0 where
  pos : ℕ → ℤ
  negsuc : ℕ → ℤ

-- `n < 0`
abbrev pub is_negative : ℤ → Bool
is_negative (pos n) = false
is_negative (negsuc n) = true

-- `n == z` for a length `n`
abbrev pub nat_eq_int : ℕ → ℤ → Bool
nat_eq_int n (pos m) = n == m
nat_eq_int n (negsuc m) = false

-- `n <= z`
abbrev pub nat_leb_int : ℕ → ℤ → Bool
nat_leb_int n (pos m) = leb n m
nat_leb_int n (negsuc m) = false
