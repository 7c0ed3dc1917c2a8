-- ===== src/Prelude/Int.antt =====
-- The integers that JSON carries, over the native numbers; `negsuc n` is -(n + 1).
use Prim.Native.Nat.{ℕ}
use mathlib.Core.Bool.{Bool, false}
use hermes_device_protocol.Prelude.Tests.{ltb}

pub data ℤ : Type 0 where
  pos : ℕ → ℤ
  negsuc : ℕ → ℤ

-- n > 0
abbrev pub is_positive : ℤ → Bool
is_positive (pos n) = ltb 0 n
is_positive (negsuc n) = false
