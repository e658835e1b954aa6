-- ===== src/LruMap.antt =====
-- The map with a bound and least-recent eviction of data-struct/lru_map.h, and LruSet of
-- data-struct/lru_set.h, its wrapper. list_ is a list of nodes, each with an identity, the most
-- recent first; an iterator is an identity, and one that no node has is dangling: to follow it is
-- `undefined`. map_ is a function from keys to iterators beside its size.
pub mod Nodes
pub mod Keys
pub mod Order
pub mod Validity
pub mod Steps
pub mod Refine
pub mod Put
pub mod Run
pub mod Read
pub mod Observe
mod Tests
use mathlib.Core.Logic.{ite}
use cpp_base.Prelude.{
  ℕ, suc, ◌+◌, ◌-◌, Bool, true, false, Option, none, some, List, [], ◌∷◌, Outcome, ok, fatal,
  undefined, ◌>>=◌, ◌>>◌, check, leb, ◌==◌, if◌then◌else◌, length, set, store,
}

-- A node of list_: its identity, its key and its value.
abbrev pub Node {ℓ} : (K V : Type ℓ) → Type ℓ
Node K V = ℕ × K × V

pub record LruMap {ℓ} (K V : Type ℓ) : Type ℓ where
  pub nodes : List (Node K V)
  pub index : K → Option ℕ
  pub size : ℕ
  pub capacity : ℕ
  -- the identity of the next node that is allocated
  pub fresh : ℕ

-- std::list through iterators.
module _ {ℓ} {K V : Type ℓ} where
  unfoldable pub at_node : ℕ → List (Node K V) → Option (K × V)
  at_node i [] = none
  at_node i ((j, k, v) ∷ l) = if j == i then some (k, v) else at_node i l

  unfoldable pub erase_node : ℕ → List (Node K V) → List (Node K V)
  erase_node i [] = []
  erase_node i ((j, k, v) ∷ l) = if j == i then l else (j, k, v) ∷ erase_node i l

  unfoldable pub set_value : ℕ → V → List (Node K V) → List (Node K V)
  set_value i v [] = []
  set_value i v ((j, k, w) ∷ l) = if j == i then (j, k, v) ∷ l else (j, k, w) ∷ set_value i v l

  unfoldable pub is_begin : ℕ → List (Node K V) → Bool
  is_begin i [] = false
  is_begin i ((j, k, v) ∷ l) = j == i

  -- `list_.splice(list_.begin(), list_, list_it)`
  unfoldable pub splice_front : ℕ → List (Node K V) → Outcome (List (Node K V))
  splice_front i l = elim (at_node i l) [
    | none ↦ undefined
    | some (k, v) ↦ ok ((i, k, v) ∷ erase_node i l)
  ]

  unfoldable pub deref : ℕ → List (Node K V) → Outcome (K × V)
  deref i l = elim (at_node i l) [ none ↦ undefined | some e ↦ ok e ]

  unfoldable pub last? : List (Node K V) → Option (Node K V)
  last? [] = none
  last? (e ∷ []) = some e
  last? (e ∷ f ∷ l) = last? (f ∷ l)

  unfoldable pub drop_last : List (Node K V) → List (Node K V)
  drop_last [] = []
  drop_last (e ∷ []) = []
  drop_last (e ∷ f ∷ l) = e ∷ drop_last (f ∷ l)

unfoldable pub update {ℓ} : {K : Type ℓ} → Discrete K → (K → Option ℕ) → K → Option ℕ → K → Option ℕ
update dec index k i j = ite (dec k j) i (index j)

module _ {ℓ} {K V : Type ℓ} where
  unfoldable pub create_lru : ℕ → LruMap K V
  create_lru capacity = record {
    nodes = [];
    index = λ _. none;
    size = 0;
    capacity = capacity;
    fresh = 0;
  }

  unfoldable pub contains : LruMap K V → K → Bool
  contains m key = elim (m.index key) [ none ↦ false | some _ ↦ true ]

  unfoldable pub clear : LruMap K V → LruMap K V
  clear m = record m { nodes = []; index = λ _. none; size = 0 }

  unfoldable pub oldest_key : LruMap K V → Option K
  oldest_key m = elim (last? m.nodes) [ none ↦ none | some (_, k, _) ↦ some k ]

  unfoldable pub oldest_value : LruMap K V → Option V
  oldest_value m = elim (last? m.nodes) [ none ↦ none | some (_, _, v) ↦ some v ]

module _ {ℓ} {K V : Type ℓ} (dec : Discrete K) where
  -- `map_.erase(key)`: the keys erased, and the map without them.
  unfoldable pub erase_key : LruMap K V → K → ℕ × LruMap K V
  unfolding update
  erase_key m key = elim (m.index key) [
    | none ↦ (0, m)
    | some _ ↦ (1, record m { index = update dec m.index key none; size = m.size - 1 })
  ]

  -- The option is what goes through `value`; none stands for the result false.
  unfoldable pub evict_oldest : LruMap K V → Outcome (LruMap K V × Option V)
  unfolding erase_key last? drop_last
  evict_oldest m = elim (last? m.nodes) [
    | none ↦ ok (m, none)
    | some (_, key, value) ↦
        let (ret, m') = erase_key (record m { nodes = drop_last m.nodes }) key in
        do check (ret == 1); ok (m', some value)
  ]

  -- `CHECK(EvictOldest(evicted_value))`, if the map is full.
  unfoldable pub make_room : LruMap K V → Outcome (LruMap K V × Option V)
  unfolding evict_oldest
  make_room m =
      if m.size == m.capacity
      then (do
        (m', evicted) ← evict_oldest m
        check (elim evicted [ none ↦ false | some _ ↦ true ])
        ok (m', evicted))
      else ok (m, none)

  -- A new node at the head of the list, and an iterator to it in the map.
  unfoldable pub push_front : LruMap K V → K → V → LruMap K V
  unfolding update
  push_front m key value = record m {
    nodes = (m.fresh, key, value) ∷ m.nodes;
    index = update dec m.index key (some m.fresh);
    size = m.size + 1;
    fresh = m.fresh + 1;
  }

  -- Move the node to the head unless it is there.
  unfoldable pub to_front : LruMap K V → K → ℕ → Outcome (LruMap K V)
  unfolding update is_begin splice_front
  to_front m key i = if is_begin i m.nodes then ok m else do
    nodes' ← splice_front i m.nodes
    ok (record m { nodes = nodes'; index = update dec m.index key (some i) })

  -- Whether the key existed, and the value evicted.
  unfoldable pub put : LruMap K V → K → V → Outcome (LruMap K V × Bool × Option V)
  unfolding make_room push_front to_front deref
  put m key value = elim (m.index key) [
    | none ↦ do
      check (leb m.size m.capacity)
      (m', evicted) ← make_room m
      check (leb (push_front m' key value).size m.capacity)
      ok (push_front m' key value, false, evicted)
    | some i ↦ do
      entry ← deref i m.nodes
      check (ite (dec entry.0 key) true false)
      m' ← to_front (record m { nodes = set_value i value m.nodes }) key i
      check (leb m'.size m'.capacity)
      ok (m', true, none)
  ]

  unfoldable pub get_without_touch : LruMap K V → K → Outcome (Option V)
  unfolding deref
  get_without_touch m key = elim (m.index key) [
    | none ↦ ok none
    | some i ↦ do
      entry ← deref i m.nodes
      check (ite (dec entry.0 key) true false)
      ok (some entry.1)
  ]

  unfoldable pub get_with_touch : LruMap K V → K → Outcome (LruMap K V × Option V)
  unfolding deref to_front
  get_with_touch m key = elim (m.index key) [
    | none ↦ ok (m, none)
    | some i ↦ do
      entry ← deref i m.nodes
      check (ite (dec entry.0 key) true false)
      m' ← to_front m key i
      ok (m', some entry.1)
  ]

  unfoldable pub erase : LruMap K V → K → Outcome (LruMap K V × Option V)
  unfolding deref update
  erase m key = elim (m.index key) [
    | none ↦ ok (m, none)
    | some i ↦ do
      entry ← deref i m.nodes
      check (ite (dec entry.0 key) true false)
      ok (
        record m {
          nodes = erase_node i m.nodes;
          index = update dec m.index key none;
          size = m.size - 1;
        },
        some entry.1,
      )
  ]
