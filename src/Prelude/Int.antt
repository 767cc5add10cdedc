-- ===== src/Prelude/Int.antt =====
-- Signed integers with the one test that the program makes of them.
use Prim.Native.Nat.{ℕ}
use mathlib.Core.Bool.{Bool, false}
use codex_memoryd.Prelude.Tests.{ltb}

-- `negsuc n` is -(n + 1).
pub data ℤ : Type 0 where
  pos : ℕ → ℤ
  negsuc : ℕ → ℤ

-- Is the natural number below the integer?
abbrev pub nat_lt : ℕ → ℤ → Bool
nat_lt n (pos m) = ltb n m
nat_lt n (negsuc _) = false
