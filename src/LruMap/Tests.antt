-- ===== src/LruMap/Tests.antt =====
-- Runs of LruMap, and each theorem at an input. See data-struct/lru_map_test.cc.
use native.Mathlib.Decide.{ℕ_discrete}
use cpp_base.Prelude.{ℕ, ◌≡◌, refl, Bool, true, false, none, some, List, [], ◌∷◌, arith, ok}
use cpp_base.LruMap.{
  LruMap, create_lru, contains, oldest_key, oldest_value, clear, at_node, erase_node, set_value,
  put, get_without_touch, get_with_touch, erase,
}
use cpp_base.LruMap.Order.{put_order, value_of, oldest}
use cpp_base.LruMap.Nodes.{entries}
use cpp_base.LruMap.Validity.{IsValid}
use cpp_base.LruMap.Refine.{Holds}
use cpp_base.LruMap.Put.{put-refines}
use cpp_base.LruMap.Run.{
  Call, call_put, call_get, call_touch, call_erase, Answer, did_put, did_find, run_lru, run_order,
  create-IsValid, run_lru-refines,
}
use cpp_base.LruMap.Observe.{is_some, observe_lru, set_insert, set_contains, contains-insert}

abbrev two : LruMap ℕ ℕ
two = create_lru 2

abbrev calls : List (Call ℕ ℕ)
calls =
    call_put 1 10
    ∷ call_put 2 20
    ∷ call_touch 1
    ∷ call_put 3 30
    ∷ call_get 2
    ∷ call_get 1
    ∷ call_put 3 31
    ∷ call_erase 1
    ∷ call_get 3
    ∷ []

abbrev answers : List (Answer ℕ)
answers =
    did_put false none
    ∷ did_put false none
    ∷ did_find (some 10)
    ∷ did_put false (some 20)
    ∷ did_find none
    ∷ did_find (some 10)
    ∷ did_put true none
    ∷ did_find (some 10)
    ∷ did_find (some 31)
    ∷ []

run-two : run_lru ℕ_discrete two calls ≡ ok answers
unfolding run_lru put get_without_touch get_with_touch erase create_lru ℕ_discrete at_node
    erase_node set_value
run-two = refl

run_lru-refines_example : run_lru ℕ_discrete two calls ≡ ok (run_order ℕ_discrete 2 [] calls)
unfolding create_lru entries
run_lru-refines_example =
    run_lru-refines ℕ_discrete two calls (create-IsValid ℕ_discrete 2) (omega arith)

put-refines_example :
    (m' : LruMap ℕ ℕ) × (put ℕ_discrete two 7 70
      ≡ ok (
        m',
        (put_order {V = ℕ} ℕ_discrete 2 [] 7 70).1,
        (put_order {V = ℕ} ℕ_discrete 2 [] 7 70).2,
      ))
    × Holds ℕ_discrete two m' (put_order {V = ℕ} ℕ_discrete 2 [] 7 70).0
unfolding create_lru entries
put-refines_example = put-refines ℕ_discrete two (create-IsValid ℕ_discrete 2) 7 70 (omega arith)

observe_lru_example :
    (contains two 1 ≡ false)
    × (oldest_key two ≡ none)
    × (oldest_value two ≡ none)
    × IsValid ℕ_discrete (clear two)
    × (entries (clear two).nodes ≡ [])
unfolding create_lru entries value_of oldest is_some
observe_lru_example = observe_lru ℕ_discrete two 1 (create-IsValid ℕ_discrete 2)

abbrev keys : LruMap ℕ Bool
keys = create_lru 2

contains-insert_example :
    (m' : LruMap ℕ Bool) × (set_insert ℕ_discrete keys 5 ≡ ok (m', set_contains ℕ_discrete keys 5))
    × (set_contains ℕ_discrete m' 5 ≡ true)
    × IsValid ℕ_discrete m'
unfolding create_lru
contains-insert_example =
    contains-insert ℕ_discrete keys 5 (create-IsValid ℕ_discrete 2) (omega arith)
