-- ===== src/Prelude/Tables.antt =====
-- Facts about small numbers by evaluation.
use Prim.Native.Nat.{ℕ, zero, suc, ◌<◌}
use mathlib.Core.Path.{◌≡◌}
use mathlib.Core.Logic.{inl, inr}
use mathlib.Core.Bool.{Bool, true, false}
use native.Mathlib.Omega.{arith}
use cpp_base.Prelude.Tests.{◌==◌, ==_iff, if◌then◌else◌, Bool-cases}

-- A test passes on each number of a table.
unfoldable pub passes : (ℕ → Bool) → ℕ → Bool
passes test zero = true
passes test (suc size) = if test size then passes test size else false

pub passes_at :
    (test : ℕ → Bool) (size : ℕ) → passes test size ≡ true → (c : ℕ) → c < size → test c ≡ true
unfolding passes
passes_at test zero e c h = absurd (omega arith)
passes_at test (suc size) e c h = elim (Bool-cases (c == size)) [
  | inl f ↦ ground (arith, e, f, ==_iff c size)
  | inr f ↦ ground (arith, e, f, λ (k : passes test size ≡ true). passes_at test size k c)
]
