-- ===== src/ZVector/Grants.antt =====
-- What Reserve of data-struct/zvector.h answers, and the vector after it.
use cpp_base.Prelude.{ℕ, ◌≤◌, ◌≡◌, ◌⊎◌, Bool, true, none, ok}
use cpp_base.ZVector.{Storage, ZVector, reserve}
use cpp_base.ZVector.Access.{IsWithin}

module _ {ℓ} {A : Type ℓ} where
  -- There is no storage yet, or the indices lie within it.
  abbrev pub IsWellFormed : ZVector A → Type ℓ
  IsWellFormed z = (z.storage ≡ none) ⊎ ((s : Storage A) × IsWithin z s)

  -- The requests for which Reserve makes the indices lo to hi: nothing was allocated, or the indices
  -- get fewer at both ends, or more at both ends.
  abbrev pub Grants : ZVector A → ℕ → ℕ → Type ℓ
  Grants z lo hi =
      (lo ≤ hi)
      × ((z.storage ≡ none)
          ⊎ ((z.min_index ≤ lo) × (hi ≤ z.max_index))
          ⊎ ((lo ≤ z.min_index) × (z.max_index ≤ hi)))

module _ {ℓ} {A : Type ℓ} (available : ℕ → Bool) where
  -- The vector has the requested indices, and they lie within its block of memory.
  abbrev pub Made : ZVector A → ℕ → ℕ → Type ℓ
  Made z lo hi =
      (z' : ZVector A) × (s : Storage A) × (reserve available z lo hi ≡ ok (true, z'))
      × (z'.min_index ≡ lo)
      × (z'.max_index ≡ hi)
      × IsWithin z' s
