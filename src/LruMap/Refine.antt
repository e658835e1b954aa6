-- ===== src/LruMap/Refine.antt =====
-- A valid LruMap (data-struct/lru_map.h) does what the contract says of its entries.
use mathlib.Core.Logic.{if_pos}
use cpp_base.Prelude.{ℕ, ◌≡◌, refl, none, some, List, ◌∷◌, ap, sym, inl, inr, ◌∙◌, ok, Option-cases}
use cpp_base.LruMap.{LruMap, at_node, erase_node, get_without_touch, get_with_touch, erase, deref}
use cpp_base.LruMap.Order.{
  value_of, without, touch_order, erase_order, touch_order_miss, touch_order_hit, without_absent,
}
use cpp_base.LruMap.Nodes.{entries}
use cpp_base.LruMap.Keys.{locate_found, value_of-absent}
use cpp_base.LruMap.Validity.{IsValid, to_front_lem}
use cpp_base.LruMap.Steps.{Fronted-IsValid, erased-IsValid}

module _ {ℓ} {K V : Type ℓ} (dec : Discrete K) (m : LruMap K V) where
  -- The result of a call: a valid map of the same bound that holds these entries.
  pub record Holds (m' : LruMap K V) (l : List (K × V)) : Type ℓ where
    pub valid : IsValid dec m'
    pub same_capacity : m'.capacity ≡ m.capacity
    pub holds : entries m'.nodes ≡ l

  module _ (v : IsValid dec m) (k : K) where
    pub absent : m.index k ≡ none → value_of dec k (entries m.nodes) ≡ none
    absent e = value_of-absent dec k m.nodes (sym (v.finds k) ∙ e)

    pub found :
        (i : ℕ)
        → m.index k ≡ some i
        → (x : V) × (at_node i m.nodes ≡ some (k, x))
          × (value_of dec k (entries m.nodes) ≡ some x)
          × (entries (erase_node i m.nodes) ≡ without dec k (entries m.nodes))
    found i e = locate_found dec k i m.nodes (sym (v.finds k) ∙ e) v.ids

    pub get_without_touch-refines :
        get_without_touch dec m k ≡ ok (value_of dec k (entries m.nodes))
    unfolding get_without_touch
    get_without_touch-refines = elim (Option-cases (m.index k)) [
      | inl e ↦ rw (absent e) (rw (e, get_without_touch))
      | inr (i, e) ↦
          let (x, at, value, _) = found i e in
          rw value (rw (e, get_without_touch) (rw (at, deref) (rw (if_pos (dec k k) refl))))
    ]

    pub touch-refines :
        (m' : LruMap K V) × (get_with_touch dec m k
          ≡ ok (m', (touch_order dec (entries m.nodes) k).1))
        × Holds m' (touch_order dec (entries m.nodes) k).0
    unfolding get_with_touch entries
    touch-refines = elim (Option-cases (m.index k)) [
      | inl e ↦
          rw (touch_order_miss dec (entries m.nodes) k (absent e))
            (m, rw (e, get_with_touch), record { valid = v; same_capacity = refl; holds = refl })
      | inr (i, e) ↦
          let (x, at, value, rest) = found i e in
          let (m', ran, fronted) = to_front_lem dec m k i x e at in
          rw (touch_order_hit dec (entries m.nodes) k x value) (
            m',
            rw (e, get_with_touch) (rw (at, deref) (rw (if_pos (dec k k) refl) (rw ran))),
            record {
              valid = Fronted-IsValid dec m v m' k i x e fronted;
              same_capacity = fronted.capacity_is;
              holds = ap entries fronted.nodes_are ∙ ap (◌∷◌ (k, x)) rest;
            },
          )
    ]

    pub erase-refines :
        (m' : LruMap K V) × (erase dec m k ≡ ok (m', (erase_order dec (entries m.nodes) k).1))
        × Holds m' (erase_order dec (entries m.nodes) k).0
    unfolding erase erase_order
    erase-refines = elim (Option-cases (m.index k)) [
      | inl e ↦ rw (absent e) (
        m,
        rw (e, erase),
        record {
          valid = v;
          same_capacity = refl;
          holds = sym (without_absent dec k (entries m.nodes) (absent e));
        },
      )
      | inr (i, e) ↦
          let (x, at, value, rest) = found i e in
          rw value (
            _,
            rw (e, erase) (rw (at, deref) (rw (if_pos (dec k k) refl))),
            record { valid = erased-IsValid dec m v k i e; same_capacity = refl; holds = rest },
          )
    ]
