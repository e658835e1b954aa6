-- ===== src/LruMap/Put.antt =====
-- LruMap's Put (data-struct/lru_map.h) on a valid map does what the contract says.
use mathlib.Core.Logic.{if_pos}
use native.Mathlib.Decide.{dec_lt}
use cpp_base.Prelude.{
  ℕ, ◌+◌, ◌-◌, ◌<◌, ◌≡◌, refl, true, false, none, some, List, [], ◌∷◌, arith, length, ap, ==_iff,
  inl, inr, ◌∙◌, ok, fatal, Option-cases, leb, le→leb,
}
use cpp_base.LruMap.{
  LruMap, Node, at_node, erase_node, set_value, last?, drop_last, update, push_front, put,
  make_room, evict_oldest, deref, erase_key,
}
use cpp_base.LruMap.Order.{
  without, put_order, newest, put_order_hit, put_order_room, put_order_full,
}
use cpp_base.LruMap.Nodes.{entries, length-entries, entries-drop_last, oldest-entries}
use cpp_base.LruMap.Keys.{locate-last}
use cpp_base.LruMap.Validity.{IsValid, Fronted, to_front_lem}
use cpp_base.LruMap.Steps.{Fronted-IsValid, dropped-IsValid, pushed-IsValid}
use cpp_base.LruMap.Refine.{Holds, absent, found}

module _ {ℓ} {K V : Type ℓ} where
  at_node-set_value :
      (i : ℕ) (k : K) (v w : V) (l : List (Node K V))
      → at_node i l ≡ some (k, v)
      → at_node i (set_value i w l) ≡ some (k, w)
  unfolding at_node set_value
  at_node-set_value i k v w [] h = cc
  at_node-set_value i k v w ((j, q, x) ∷ l) h = ground (arith, at_node-set_value i k v w l)

  erase_node-set_value :
      (i : ℕ) (w : V) (l : List (Node K V)) → erase_node i (set_value i w l) ≡ erase_node i l
  unfolding erase_node set_value
  erase_node-set_value i w [] = refl
  erase_node-set_value i w ((j, q, x) ∷ l) = ground (arith, erase_node-set_value i w l)

pushed_fits {ℓ} :
    {K V : Type ℓ} (dec : Discrete K) (m : LruMap K V) (k : K) (w : V)
    → m.size < m.capacity
    → leb (push_front dec m k w).size m.capacity ≡ true
unfolding push_front
pushed_fits dec m k w r = le→leb (m.size + 1) m.capacity (omega arith)

module _ {ℓ} {K V : Type ℓ} (dec : Discrete K) (m : LruMap K V) (v : IsValid dec m) where
  make_room-none : m.size < m.capacity → make_room dec m ≡ ok (m, none)
  unfolding make_room
  make_room-none r = ground arith

  -- The map without its oldest entry.
  abbrev dropped : K → LruMap K V
  dropped key = record m {
    nodes = drop_last m.nodes;
    index = update dec m.index key none;
    size = m.size - 1;
  }

  make_room_oldest :
      (i : ℕ) (key : K) (value : V)
      → m.size ≡ m.capacity
      → last? m.nodes ≡ some (i, key, value)
      → make_room dec m ≡ ok (dropped key, some value)
  unfolding make_room
  make_room_oldest i key value full e =
      let (j, there) = locate-last dec i key value m.nodes e in
      let f : m.index key ≡ some j = v.finds key ∙ there in
      rw ((==_iff m.size m.capacity).1 full) (rw (e, evict_oldest) (rw (f, erase_key)))

  last?-empty : (l : List (Node K V)) → length l ≡ 0 → last? l ≡ none
  unfolding last?
  last?-empty [] h = refl
  last?-empty (e ∷ l) h = absurd (omega arith)

  some_last : (l : List (Node K V)) → 0 < length l → (e : Node K V) × (last? l ≡ some e)
  unfolding last?
  some_last [] h = absurd (omega arith)
  some_last (e ∷ []) h = (e, refl)
  some_last (e ∷ f ∷ l) h = some_last (f ∷ l) (omega arith)

  module _ (k : K) where
    pub put_old :
        (w : V) (i : ℕ)
        → m.index k ≡ some i
        → (m' : LruMap K V) × (put dec m k w ≡ ok (m', true, none))
          × Holds dec m m' ((k, w) ∷ without dec k (entries m.nodes))
    unfolding put entries
    put_old w i e =
        let (x, at, value, rest) = found dec m v k i e in
        let n : LruMap K V = record m { nodes = set_value i w m.nodes } in
        let (m', ran, fronted) =
          to_front_lem dec n k i w e (at_node-set_value i k x w m.nodes at) in
        let whole : Fronted dec m m' k i w = record {
          nodes_are = fronted.nodes_are ∙ ap (◌∷◌ (i, k, w)) (erase_node-set_value i w m.nodes);
          index_is = fronted.index_is;
          size_is = fronted.size_is;
          capacity_is = fronted.capacity_is;
          fresh_is = fronted.fresh_is;
        } in
        let valid' : IsValid dec m' = Fronted-IsValid dec m v m' k i w e whole in
        (
          m',
          rw (e, put)
              (rw (at, deref)
                (rw (if_pos (dec k k) refl)
                  (rw ran (rw (le→leb m'.size m'.capacity valid'.bounded))))),
          record {
            valid = valid';
            same_capacity = whole.capacity_is;
            holds = ap entries whole.nodes_are ∙ ap (◌∷◌ (k, w)) rest;
          },
        )

    pub put_room :
        (w : V)
        → m.index k ≡ none
        → m.size < m.capacity
        → (put dec m k w ≡ ok (push_front dec m k w, false, none))
          × Holds dec m (push_front dec m k w) ((k, w) ∷ entries m.nodes)
    unfolding put entries
    put_room w e r = (
      rw (e, put)
          (rw (le→leb m.size m.capacity v.bounded, make_room-none r)
            (rw (pushed_fits dec m k w r))),
      record { valid = pushed-IsValid dec m v k w e r; same_capacity = refl; holds = refl },
    )

    still_absent : (key : K) → m.index k ≡ none → update dec m.index key none k ≡ none
    unfolding update
    still_absent key e = ground arith

    pub put_full :
        (w : V) (i : ℕ) (key : K) (value : V)
        → m.index k ≡ none
        → 0 < m.size
        → m.size ≡ m.capacity
        → last? m.nodes ≡ some (i, key, value)
        → (put dec m k w ≡ ok (push_front dec (dropped key) k w, false, some value))
          × Holds dec m (push_front dec (dropped key) k w) ((k, w) ∷ newest (entries m.nodes))
    unfolding put entries
    put_full w i key value e p full l = (
      rw (e, put)
          (rw (le→leb m.size m.capacity v.bounded, make_room_oldest i key value full l)
            (rw (pushed_fits dec (dropped key) k w (omega arith)))),
      record {
        valid =
            pushed-IsValid dec (dropped key) (dropped-IsValid dec m v i key value l) k w
              (still_absent key e) (omega arith);
        same_capacity = refl;
        holds = ap (◌∷◌ (k, w)) (entries-drop_last m.nodes);
      },
    )

    -- Put on a valid map with a positive capacity: the entry comes to the front. A key that was there keeps its place in the map; a new one
    -- on a full map evicts the oldest entry, whose value is returned.
    pub put-refines :
        (w : V)
        → 0 < m.capacity
        → (m' : LruMap K V) × (put dec m k w
            ≡ ok (
              m',
              (put_order dec m.capacity (entries m.nodes) k w).1,
              (put_order dec m.capacity (entries m.nodes) k w).2,
            ))
          × Holds dec m m' (put_order dec m.capacity (entries m.nodes) k w).0
    put-refines w p = elim (Option-cases (m.index k)) [
      | inr (i, e) ↦
          let (x, at, value, rest) = found dec m v k i e in
          rw (put_order_hit dec (entries m.nodes) k m.capacity x w value) (put_old w i e)
      | inl e ↦ elim (dec_lt m.size m.capacity) [
        | yes r ↦
            rw
              (put_order_room dec (entries m.nodes) k m.capacity w (absent dec m v k e)
                (ground (arith, length-entries m.nodes, v.sized)))
              (let (ran, held) = put_room w e r in (_, ran, held))
        | no r ↦
            let full : m.size ≡ m.capacity = omega (arith, v.bounded) in
            let ((i, key, value), l) = some_last m.nodes (omega (arith, v.sized)) in
            rw
              (put_order_full dec (entries m.nodes) k m.capacity w (key, value) (absent dec m v k e)
                (ground (arith, length-entries m.nodes, v.sized)) (oldest-entries m.nodes ∙ rw l))
              (let (ran, held) = put_full w i key value e (omega (arith, full)) full l in
                (_, ran, held))
      ]
    ]

    -- With capacity 0 a new key ends the process: there is no entry to evict.
    pub put_capacity_zero : (w : V) → m.index k ≡ none → m.capacity ≡ 0 → put dec m k w ≡ fatal
    unfolding put
    put_capacity_zero w e z =
        let bare : last? m.nodes ≡ none = last?-empty m.nodes (omega (arith, v.sized, v.bounded)) in
        rw (e, put)
          (rw (le→leb m.size m.capacity v.bounded, make_room)
            (rw ((==_iff m.size m.capacity).1 (omega (arith, v.bounded)))
              (rw (bare, evict_oldest))))
