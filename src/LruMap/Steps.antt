-- ===== src/LruMap/Steps.antt =====
-- The steps of LruMap's operations (data-struct/lru_map.h) keep the invariant.
use mathlib.Core.Logic.{ite, if_pos, if_neg}
use cpp_base.Prelude.{
  ℕ, ◌-◌, ◌<◌, ◌≡◌, refl, none, some, List, [], ◌∷◌, arith, length, ap, sym, ◌∙◌, subst,
}
use cpp_base.LruMap.{LruMap, Node, erase_node, last?, drop_last, update, push_front}
use cpp_base.LruMap.Nodes.{
  IdsDistinct, IdsBelow, at_node_fresh, IdsBelow-suc, IdsBelow-at_node, IdsBelow-erase_node,
  IdsBelow-drop_last, at_node-erase_node_self, IdsDistinct-erase_node, IdsDistinct-drop_last,
  length-drop_last,
}
use cpp_base.LruMap.Keys.{
  locate, KeysDistinct, locate_found, KeysDistinct-erase_node, locate-erase_node,
  KeysDistinct-drop_last, locate-drop_last,
}
use cpp_base.LruMap.Validity.{IsValid, Fronted, length-erase_node}

last_pos {ℓ} : {K V : Type ℓ} (l : List (Node K V)) {e : Node K V} → last? l ≡ some e → 0 < length l
unfolding last?
last_pos [] h = cc
last_pos (e ∷ l) h = omega arith

module _ {ℓ} {K V : Type ℓ} (dec : Discrete K) where
  locate_here :
      (k q : K) (i : ℕ) (v : V) (l : List (Node K V))
      → locate dec k l ≡ some i
      → IdsDistinct l
      → KeysDistinct dec l
      → locate dec q ((i, k, v) ∷ erase_node i l) ≡ locate dec q l
  unfolding locate
  locate_here k q i v l h d u = elim (dec k q) [
    | yes p ↦ rw (if_pos _ p) (sym h ∙ ap (λ x. locate dec x l) p)
    | no p ↦
        rw (if_neg _ p)
          (locate-erase_node dec k q i l h d u ∙ if_neg (dec k q) p none (locate dec q l))
  ]

  locate_gone :
      (k : K) (i : ℕ) (l : List (Node K V))
      → locate dec k l ≡ some i
      → IdsDistinct l
      → KeysDistinct dec l
      → locate dec k (erase_node i l) ≡ none
  locate_gone k i l h d u = locate-erase_node dec k k i l h d u ∙ if_pos (dec k k) refl _ _

  module _ (m : LruMap K V) (v : IsValid dec m) where
    -- A node moved to the head, perhaps with a new value.
    pub Fronted-IsValid :
        (m' : LruMap K V) (k : K) (i : ℕ) (w : V)
        → m.index k ≡ some i
        → Fronted dec m m' k i w
        → IsValid dec m'
    unfolding IdsDistinct IdsBelow KeysDistinct
    Fronted-IsValid m' k i w f r =
        let h : locate dec k m.nodes ≡ some i = sym (v.finds k) ∙ f in
        let (x, at, _, _) = locate_found dec k i m.nodes h v.ids in
        record {
          ids =
              subst IdsDistinct (sym r.nodes_are)
                (at_node-erase_node_self i m.nodes v.ids, IdsDistinct-erase_node i m.nodes v.ids);
          below =
              subst (λ n. IdsBelow n m'.nodes) (sym r.fresh_is)
                (subst (IdsBelow m.fresh) (sym r.nodes_are) (
                  IdsBelow-at_node m.fresh i m.nodes (k, x) v.below at,
                  IdsBelow-erase_node m.fresh i m.nodes v.below,
                ));
          keys = subst (KeysDistinct dec) (sym r.nodes_are) (
            locate_gone k i m.nodes h v.ids v.keys,
            KeysDistinct-erase_node dec i m.nodes v.keys,
          );
          finds = λ q.
              r.index_is q
              ∙ v.finds q
              ∙ sym (locate_here k q i w m.nodes h v.ids v.keys)
              ∙ ap (locate dec q) (sym r.nodes_are);
          sized = omega (
            arith,
            r.size_is,
            v.sized,
            ap length r.nodes_are,
            length-erase_node dec i m.nodes (k, x) at,
          );
          bounded = omega (arith, r.size_is, r.capacity_is, v.bounded);
        }

    -- The node of a key erased, and the key with it.
    pub erased-IsValid :
        (k : K) (i : ℕ)
        → m.index k ≡ some i
        → IsValid dec (record m {
          nodes = erase_node i m.nodes;
          index = update dec m.index k none;
          size = m.size - 1;
        })
    unfolding update
    erased-IsValid k i f =
        let h : locate dec k m.nodes ≡ some i = sym (v.finds k) ∙ f in
        let (x, at, _, _) = locate_found dec k i m.nodes h v.ids in
        record {
          ids = IdsDistinct-erase_node i m.nodes v.ids;
          below = IdsBelow-erase_node m.fresh i m.nodes v.below;
          keys = KeysDistinct-erase_node dec i m.nodes v.keys;
          finds = λ q.
              ap (ite (dec k q) none) (v.finds q)
              ∙ sym (locate-erase_node dec k q i m.nodes h v.ids v.keys);
          sized = omega (arith, v.sized, length-erase_node dec i m.nodes (k, x) at);
          bounded = omega (arith, v.bounded);
        }

    -- The last node dropped, and its key erased.
    pub dropped-IsValid :
        (i : ℕ) (k : K) (w : V)
        → last? m.nodes ≡ some (i, k, w)
        → IsValid dec (record m {
          nodes = drop_last m.nodes;
          index = update dec m.index k none;
          size = m.size - 1;
        })
    unfolding update
    dropped-IsValid i k w e = record {
      ids = IdsDistinct-drop_last m.nodes v.ids;
      below = IdsBelow-drop_last m.fresh m.nodes v.below;
      keys = KeysDistinct-drop_last dec m.nodes v.keys;
      finds = λ q.
          ap (ite (dec k q) none) (v.finds q) ∙ sym (locate-drop_last dec i k q w m.nodes e v.keys);
      sized = omega (arith, v.sized, length-drop_last m.nodes (last_pos m.nodes e));
      bounded = omega (arith, v.bounded);
    }

    -- A new key at the head, where there is room.
    pub pushed-IsValid :
        (k : K) (w : V)
        → m.index k ≡ none
        → m.size < m.capacity
        → IsValid dec (push_front dec m k w)
    unfolding push_front update IdsDistinct IdsBelow KeysDistinct locate
    pushed-IsValid k w f room = record {
      ids = (at_node_fresh m.fresh m.nodes v.below, v.ids);
      below = (omega arith, IdsBelow-suc m.fresh m.nodes v.below);
      keys = (sym (v.finds k) ∙ f, v.keys);
      finds = λ q. ap (ite (dec k q) (some m.fresh)) (v.finds q);
      sized = omega (arith, v.sized);
      bounded = omega arith;
    }
