-- ===== src/Common/Int.antt =====
-- Python's integers over the native numbers, as far as a difference needs them.
use Prim.Native.Nat.{ℕ, ◌-◌}
use ai_agent_code.Common.Tests.{if◌then◌else◌, leb}

pub data ℤ : Type 0 where
  pos negsuc : ℕ → ℤ

-- `p - q`
abbrev pub diff : ℕ → ℕ → ℤ
diff p q = if leb q p then pos (p - q) else negsuc (q - p - 1)
