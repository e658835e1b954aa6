-- ===== src/ZVector.antt =====
-- data-struct/zvector.h. An int64 i is the number i + 2 ^ 63, which keeps order and differences. The
-- DCHECKs are on. A cell that has not been written is `none`, and reading it is undefined.
pub mod Access
mod Copy
pub mod Reserve
pub mod Kept
pub mod Grants
mod Tests
use cpp_base.Prelude.{
  ℕ, zero, suc, ◌+◌, ◌-◌, ◌^◌, ◌≤◌, ◌<◌, ◌≡◌, Bool, true, false, ◌&&◌, ◌||◌, Option, none, some,
  List, [], ◌∷◌, ◌++◌, length, take, drop, replicate, ltb, leb, if◌then◌else◌, Outcome, ok, fatal,
  thrown, undefined, ◌>>=◌, ◌>>◌, check, load, store,
}

-- The block of memory: the index whose element stands in its first cell, which is where `base_`
-- places it, and the cells.
pub record Storage {ℓ} (A : Type ℓ) : Type ℓ where
  pub origin : ℕ
  pub cells : List (Option A)

-- No storage: `base_` is NULL.
pub record ZVector {ℓ} (A : Type ℓ) : Type ℓ where
  pub min_index : ℕ
  pub max_index : ℕ
  pub size : ℕ
  pub storage : Option (Storage A)

abbrev pub zero_index : ℕ
zero_index = 2 ^ 63

module _ {ℓ} {A : Type ℓ} where
  unfoldable pub empty_zvector : ZVector A
  empty_zvector = record {
    min_index = zero_index;
    max_index = zero_index - 1;
    size = 0;
    storage = none;
  }

  -- `base_[index]`, read and written.
  unfoldable pub read_cell : Storage A → ℕ → Outcome A
  read_cell s index =
      if ltb index s.origin
      then undefined
      else (load s.cells (index - s.origin) >>= λ c. elim c [ none ↦ undefined | some a ↦ ok a ])

  unfoldable pub write_cell : Storage A → ℕ → A → Outcome (Storage A)
  write_cell s index a =
      if ltb index s.origin
      then undefined
      else (store s.cells (index - s.origin) (some a) >>= λ cells. ok (record s { cells = cells }))

  -- The three DCHECKs of an access.
  unfoldable pub checked : ZVector A → ℕ → Outcome (Storage A)
  checked z index =
      check (leb z.min_index index)
      >> (check (leb index z.max_index) >> (elim z.storage [ none ↦ fatal | some s ↦ ok s ]))

  unfoldable pub value : ZVector A → ℕ → Outcome A
  unfolding checked read_cell
  value z index = checked z index >>= λ s. read_cell s index

  unfoldable pub set_value : ZVector A → ℕ → A → Outcome (ZVector A)
  unfolding checked write_cell
  set_value z index a =
      checked z index >>= λ s. write_cell s index a >>= λ s'. ok (record z { storage = some s' })

  -- `new T[size]`, of which `available` says whether there is memory.
  unfoldable pub allocate : (ℕ → Bool) → ℕ → Outcome (List (Option A))
  allocate available size = if available size then ok (replicate size none) else thrown

  -- `memcpy` of the first `size` cells of a block to a place of another.
  unfoldable pub copy_cells : List (Option A) → ℕ → List (Option A) → ℕ → Outcome (List (Option A))
  copy_cells target place source size =
      if leb size (length source) && leb (place + size) (length target)
      then ok (take place target ++ (take size source ++ drop (place + size) target))
      else undefined

  unfoldable pub moved : ℕ → ℕ → List (Option A) → ZVector A
  moved lo hi cells = record {
    min_index = lo;
    max_index = hi;
    size = hi - lo + 1;
    storage = some (record { origin = lo; cells = cells });
  }

  unfoldable pub reserve : (ℕ → Bool) → ZVector A → ℕ → ℕ → Outcome (Bool × ZVector A)
  unfolding allocate copy_cells moved
  reserve available z lo hi =
      if ltb hi lo
      then ok (false, z)
      else if leb (2 ^ 63) (hi - lo + 1)
      then undefined
      else elim z.storage [
        | none ↦ allocate available (hi - lo + 1) >>= λ cells. ok (true, moved lo hi cells)
        | some s ↦
            if leb z.min_index lo && leb hi z.max_index
            then ok (true, record z { min_index = lo; max_index = hi; size = hi - lo + 1 })
            else if ltb z.min_index lo || ltb hi z.max_index
            then ok (false, z)
            else (allocate available (hi - lo + 1) >>= λ fresh.
                copy_cells fresh (z.min_index - lo) s.cells z.size >>= λ cells.
                ok (true, moved lo hi cells))
      ]

  -- The loop of SetAll over the elements that are left.
  unfoldable pub set_all_loop : ℕ → ℕ → Storage A → A → Outcome (Storage A)
  unfolding write_cell
  set_all_loop zero index s a = ok s
  set_all_loop (suc left) index s a =
      write_cell s index a >>= λ s'. set_all_loop left (index + 1) s' a

  unfoldable pub set_all : ZVector A → A → Outcome (ZVector A)
  unfolding set_all_loop
  set_all z a = elim z.storage [
    | none ↦ if leb z.size 0 then ok z else undefined
    | some s ↦ set_all_loop z.size z.min_index s a >>= λ s'. ok (record z { storage = some s' })
  ]
