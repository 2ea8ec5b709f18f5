-- ===== src/Base/Table.antt =====
-- A law over a small range of numbers, checked at every value.
use ras.Base.Tests.{if◌then◌else◌}
use Prim.Native.Nat.{ℕ, zero, suc, ◌<◌}
use mathlib.Core.Path.{◌≡◌}
use mathlib.Core.Bool.{Bool, true, false}
use native.Mathlib.Omega.{arith}

-- The law at every number less than the first argument, from the largest down.
unfoldable pub checked : ℕ → (ℕ → Bool) → Bool
checked zero law = true
checked (suc top) law = if law top then checked top law else false

pub checked_at :
    (bound : ℕ) (law : ℕ → Bool) (i : ℕ) → checked bound law ≡ true → i < bound → law i ≡ true
unfolding checked
checked_at zero law i all small = absurd (omega arith)
checked_at (suc top) law i all small = ground (arith, checked_at top law i)
