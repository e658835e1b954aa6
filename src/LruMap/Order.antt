-- ===== src/LruMap/Order.antt =====
-- The contract of LruMap (data-struct/lru_map.h): the entries, the most recently used first.
use mathlib.Core.Logic.{ite, if_pos, if_neg}
use cpp_base.Prelude.{
  ℕ, ◌≡◌, refl, Bool, true, false, Option, none, some, List, [], ◌∷◌, length, ◌==◌, if◌then◌else◌,
  ap,
}

module _ {ℓ} {K V : Type ℓ} where
  unfoldable pub newest : List (K × V) → List (K × V)
  newest [] = []
  newest (e ∷ []) = []
  newest (e ∷ f ∷ l) = e ∷ newest (f ∷ l)

  unfoldable pub oldest : List (K × V) → Option (K × V)
  oldest [] = none
  oldest (e ∷ []) = some e
  oldest (e ∷ f ∷ l) = oldest (f ∷ l)

module _ {ℓ} {K V : Type ℓ} (dec : Discrete K) where
  unfoldable pub value_of : K → List (K × V) → Option V
  value_of k [] = none
  value_of k ((j, v) ∷ l) = ite (dec j k) (some v) (value_of k l)

  unfoldable pub without : K → List (K × V) → List (K × V)
  without k [] = []
  without k ((j, v) ∷ l) = ite (dec j k) l ((j, v) ∷ without k l)

  unfoldable pub Distinct : List (K × V) → Type ℓ
  Distinct [] = Unit
  Distinct ((k, v) ∷ l) = (value_of k l ≡ none) × Distinct l

  -- Put: the entry comes first; a new key on a full map pushes the oldest entry out.
  unfoldable pub put_order : ℕ → List (K × V) → K → V → List (K × V) × Bool × Option V
  unfolding value_of without newest oldest
  put_order limit l k v = elim (value_of k l) [
    | some _ ↦ ((k, v) ∷ without k l, true, none)
    | none ↦
        if length l == limit
        then ((k, v) ∷ newest l, false, elim (oldest l) [ none ↦ none | some (_, w) ↦ some w ])
        else ((k, v) ∷ l, false, none)
  ]

  unfoldable pub touch_order : List (K × V) → K → List (K × V) × Option V
  unfolding value_of without
  touch_order l k = elim (value_of k l) [
    | none ↦ (l, none)
    | some v ↦ ((k, v) ∷ without k l, some v)
  ]

  unfoldable pub erase_order : List (K × V) → K → List (K × V) × Option V
  unfolding value_of without
  erase_order l k = (without k l, value_of k l)

  module _ (l : List (K × V)) (k : K) where
    pub touch_order_miss : value_of k l ≡ none → touch_order l k ≡ (l, none)
    unfolding touch_order
    touch_order_miss h = rw (h, touch_order)

    pub touch_order_hit :
        (v : V) → value_of k l ≡ some v → touch_order l k ≡ ((k, v) ∷ without k l, some v)
    unfolding touch_order
    touch_order_hit v h = rw (h, touch_order)

    pub put_order_hit :
        (limit : ℕ) (v w : V)
        → value_of k l ≡ some v
        → put_order limit l k w ≡ ((k, w) ∷ without k l, true, none)
    unfolding put_order
    put_order_hit limit v w h = rw (h, put_order)

    pub put_order_room :
        (limit : ℕ) (w : V)
        → value_of k l ≡ none
        → (length l == limit) ≡ false
        → put_order limit l k w ≡ ((k, w) ∷ l, false, none)
    unfolding put_order
    put_order_room limit w h r = rw (h, put_order) (rw r)

    pub put_order_full :
        (limit : ℕ) (w : V) (e : K × V)
        → value_of k l ≡ none
        → (length l == limit) ≡ true
        → oldest l ≡ some e
        → put_order limit l k w ≡ ((k, w) ∷ newest l, false, some e.1)
    unfolding put_order
    put_order_full limit w e h r o = rw (h, put_order) (rw r (rw o))

  pub without_absent : (k : K) (l : List (K × V)) → value_of k l ≡ none → without k l ≡ l
  unfolding value_of without
  without_absent k [] h = refl
  without_absent k ((j, v) ∷ l) h = elim (dec j k) [
    | yes p ↦ let found : some v ≡ none = rw (if_pos _ p) at h in cc
    | no p ↦ rw (if_neg _ p) (ap (◌∷◌ (j, v)) (without_absent k l (rw (if_neg _ p) at h)))
  ]
