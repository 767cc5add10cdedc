-- ===== src/Recall/Float.antt =====
-- IEEE 754 binary64 arithmetic, on the bit patterns that hold an f64: a parameter of the model.
use Prim.Native.Nat.{Ordering}
use codex_memoryd.Prelude.{ℕ, Bool, Option}
use codex_memoryd.Prelude.Int.{ℤ}
use codex_memoryd.Domain.MemoryRecord.{F64}

pub record Float : Type 0 where
  -- the literal of so many hundredths
  pub hundredths : ℤ → F64
  -- `n as f64`
  pub of_usize : ℕ → F64
  pub add : F64 → F64 → F64
  pub mul : F64 → F64 → F64
  pub div : F64 → F64 → F64
  pub lt : F64 → F64 → Bool
  pub partial_cmp : F64 → F64 → Option Ordering
