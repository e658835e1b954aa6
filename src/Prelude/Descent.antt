-- ===== src/Prelude/Descent.antt =====
-- The native numbers are well founded, for loops that go on at smaller numbers.
use Prim.Native.Nat.{ℕ, zero, suc, ◌<◌}
use mathlib.Core.WellFounded.{Acc}
use native.Mathlib.Omega.{arith}

accessible : (bound n : ℕ) → n < bound → Acc ◌<◌ n
accessible zero n h = absurd (omega arith)
accessible (suc bound) n h = Acc.intro n (λ m less. accessible bound m (omega arith))

-- The numbers are well founded, so a loop may go on at any smaller number.
unfoldable pub less_wf : (n : ℕ) → Acc ◌<◌ n
unfolding accessible
less_wf n = accessible (suc n) n (omega arith)
