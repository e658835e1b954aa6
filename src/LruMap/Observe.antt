-- ===== src/LruMap/Observe.antt =====
-- The queries of LruMap (data-struct/lru_map.h), and LruSet (data-struct/lru_set.h) over it.
use cpp_base.Prelude.{
  ℕ, ◌<◌, ◌≡◌, refl, Bool, true, false, Option, none, some, List, [], arith, Outcome, ok, ◌>>=◌, ap,
  sym, ◌∙◌, inl, inr, Option-cases,
}
use cpp_base.LruMap.{LruMap, contains, oldest_key, oldest_value, clear, put, get_with_touch, erase}
use cpp_base.LruMap.Order.{value_of, put_order, oldest}
use cpp_base.LruMap.Nodes.{entries, oldest-entries, IdsDistinct, IdsBelow}
use cpp_base.LruMap.Keys.{KeysDistinct, locate}
use cpp_base.LruMap.Validity.{IsValid}
use cpp_base.LruMap.Refine.{absent, found}
use cpp_base.LruMap.Put.{put-refines}
use cpp_base.LruMap.Read.{put_order_self}

unfoldable pub is_some {ℓ} : {A : Type ℓ} → Option A → Bool
is_some none = false
is_some (some a) = true

module _ {ℓ} {K V : Type ℓ} (dec : Discrete K) (m : LruMap K V) where
  pub contains-refines :
      (k : K) → IsValid dec m → contains m k ≡ is_some (value_of dec k (entries m.nodes))
  unfolding contains is_some
  contains-refines k v = elim (Option-cases (m.index k)) [
    | inl e ↦ rw (absent dec m v k e) (rw (e, contains))
    | inr (i, e) ↦ let (x, at, value, rest) = found dec m v k i e in rw value (rw (e, contains))
  ]

  -- On a valid map Contains tells whether the key has a value, OldestKey and OldestValue give the
  -- entry that has been used least recently, and Clear leaves a valid map with no entry.
  pub observe_lru :
      (k : K)
      → IsValid dec m
      → (contains m k ≡ is_some (value_of dec k (entries m.nodes)))
        × (oldest_key m ≡ elim (oldest (entries m.nodes)) [ none ↦ none | some e ↦ some e.0 ])
        × (oldest_value m ≡ elim (oldest (entries m.nodes)) [ none ↦ none | some e ↦ some e.1 ])
        × IsValid dec (clear m)
        × (entries (clear m).nodes ≡ [])
  unfolding oldest_key oldest_value clear entries IdsDistinct IdsBelow KeysDistinct locate
  observe_lru k v = (
    contains-refines k v,
    rw (oldest-entries m.nodes) (ground arith),
    rw (oldest-entries m.nodes) (ground arith),
    record {
      ids = tt;
      below = tt;
      keys = tt;
      finds = λ q. refl;
      sized = refl;
      bounded = omega arith;
    },
    refl,
  )

-- LruSet: a map to a trivial value.
module _ {K : Type 0} (dec : Discrete K) where
  unfoldable pub set_insert : LruMap K Bool → K → Outcome (LruMap K Bool × Bool)
  set_insert m key = do (m', existed, _) ← put dec m key true; ok (m', existed)

  unfoldable pub set_contains : LruMap K Bool → K → Bool
  set_contains m key = contains m key

  unfoldable pub set_touch : LruMap K Bool → K → Outcome (LruMap K Bool × Bool)
  unfolding is_some
  set_touch m key = do (m', value) ← get_with_touch dec m key; ok (m', is_some value)

  unfoldable pub set_erase : LruMap K Bool → K → Outcome (LruMap K Bool × Bool)
  unfolding is_some
  set_erase m key = do (m', value) ← erase dec m key; ok (m', is_some value)

  put_order_existed :
      (limit : ℕ) (l : List (K × Bool)) (k : K)
      → (put_order dec limit l k true).1 ≡ is_some (value_of dec k l)
  unfolding put_order is_some
  put_order_existed limit l k = ground arith

  -- On a valid set with a positive capacity, Insert says whether the key was in the set, and then the
  -- set contains it and stays valid.
  pub contains-insert :
      (m : LruMap K Bool) (k : K)
      → IsValid dec m
      → 0 < m.capacity
      → (m' : LruMap K Bool) × (set_insert m k ≡ ok (m', set_contains m k))
        × (set_contains m' k ≡ true)
        × IsValid dec m'
  unfolding set_insert set_contains is_some
  contains-insert m k v p =
      let (m', ran, h) = put-refines dec m v k true p in
      (
        m',
        rw ran (
            ap (λ b. ok (m', b))
              (put_order_existed m.capacity (entries m.nodes) k
                ∙ sym (contains-refines dec m k v))),
        contains-refines dec m' k h.valid
            ∙ ap (λ l. is_some (value_of dec k l)) h.holds
            ∙ ap is_some (put_order_self dec m.capacity (entries m.nodes) k true),
        h.valid,
      )
