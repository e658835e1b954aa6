-- ===== src/LruMap/Validity.antt =====
-- The invariant of LruMap (data-struct/lru_map.h), and its private steps on a valid map.
use mathlib.Core.Logic.{if_pos, if_neg}
use cpp_base.Prelude.{
  ℕ, ◌+◌, ◌≤◌, ◌≡◌, refl, true, some, List, [], ◌∷◌, arith, length, ap, sym, ==_iff, Bool-cases,
  inl, inr, ◌∙◌, ok,
}
use cpp_base.LruMap.{LruMap, Node, at_node, erase_node, is_begin, to_front, update}
use cpp_base.LruMap.Nodes.{IdsDistinct, IdsBelow}
use cpp_base.LruMap.Keys.{locate, KeysDistinct}

module _ {ℓ} {K V : Type ℓ} (dec : Discrete K) where
  -- `finds`: the map holds, for each key, an iterator to the node with that key, and nothing else.
  pub record IsValid (m : LruMap K V) : Type ℓ where
    pub ids : IdsDistinct m.nodes
    pub below : IdsBelow m.fresh m.nodes
    pub keys : KeysDistinct dec m.nodes
    pub finds : (k : K) → m.index k ≡ locate dec k m.nodes
    pub sized : m.size ≡ length m.nodes
    pub bounded : m.size ≤ m.capacity

  pub length-erase_node :
      (i : ℕ) (l : List (Node K V)) (e : K × V)
      → at_node i l ≡ some e
      → length (erase_node i l) + 1 ≡ length l
  unfolding at_node erase_node
  length-erase_node i [] e h = cc
  length-erase_node i ((j, k, v) ∷ l) e h = ground (arith, length-erase_node i l e)

  begin_is_head :
      (i : ℕ) (l : List (Node K V)) (k : K) (v : V)
      → is_begin i l ≡ true
      → at_node i l ≡ some (k, v)
      → (i, k, v) ∷ erase_node i l ≡ l
  unfolding is_begin at_node erase_node
  begin_is_head i [] k v b h = cc
  begin_is_head i ((j, q, w) ∷ l) k v b h = ground (arith, ==_iff j i)

  -- The node goes to the head, with its key and value; the map finds the keys as before.
  pub record Fronted (m m' : LruMap K V) (k : K) (i : ℕ) (v : V) : Type ℓ where
    pub nodes_are : m'.nodes ≡ (i, k, v) ∷ erase_node i m.nodes
    pub index_is : (q : K) → m'.index q ≡ m.index q
    pub size_is : m'.size ≡ m.size
    pub capacity_is : m'.capacity ≡ m.capacity
    pub fresh_is : m'.fresh ≡ m.fresh

  update_same :
      (m : LruMap K V) (k : K) (i : ℕ)
      → m.index k ≡ some i
      → (q : K) → update dec m.index k (some i) q ≡ m.index q
  unfolding update
  update_same m k i f q = elim (dec k q) [
    | yes p ↦ rw (if_pos _ p) (sym f ∙ ap m.index p)
    | no p ↦ rw (if_neg _ p)
  ]

  pub to_front_lem :
      (m : LruMap K V) (k : K) (i : ℕ) (v : V)
      → m.index k ≡ some i
      → at_node i m.nodes ≡ some (k, v)
      → (m' : LruMap K V) × (to_front dec m k i ≡ ok m') × Fronted m m' k i v
  unfolding to_front
  to_front_lem m k i v f h = elim (Bool-cases (is_begin i m.nodes)) [
    | inl b ↦ (
      m,
      rw b,
      record {
        nodes_are = sym (begin_is_head i m.nodes k v b h);
        index_is = λ q. refl;
        size_is = refl;
        capacity_is = refl;
        fresh_is = refl;
      },
    )
    | inr b ↦ (
      record m { nodes = (i, k, v) ∷ erase_node i m.nodes; index = update dec m.index k (some i) },
      ground arith,
      record {
        nodes_are = refl;
        index_is = update_same m k i f;
        size_is = refl;
        capacity_is = refl;
        fresh_is = refl;
      },
    )
  ]
