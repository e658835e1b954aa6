-- ===== src/Fifo.antt =====
-- The contract that the bounded queues of data-struct/ share: a first-in first-out list of at most
-- `limit` elements, its calls, and what a client sees of each call.
use cpp_base.Prelude.{
  ℕ, ◌<◌, arith, ◌≡◌, Bool, true, false, Option, none, some, List, [], ◌∷◌, ◌++◌, length, ltb,
  if◌then◌else◌,
}

module _ {ℓ} {A : Type ℓ} where
  unfoldable pub get : List A → List A × Option A
  get [] = ([], none)
  get (x ∷ q) = (q, some x)

  unfoldable pub put : ℕ → List A → A → List A × Bool
  put limit q x = if ltb (length q) limit then (q ++ (x ∷ []), true) else (q, false)

pub data Op {ℓ} (A : Type ℓ) : Type ℓ where
  try_put : A → Op A
  try_get : Op A

pub data Reply {ℓ} (A : Type ℓ) : Type ℓ where
  did_put : Bool → Reply A
  did_get : Option A → Reply A

module _ {ℓ} {A : Type ℓ} where
  -- What the calls of one client after another return.
  unfoldable pub run : ℕ → List A → List (Op A) → List (Reply A)
  run limit q [] = []
  run limit q (try_put x ∷ ops) = let (q', done) = put limit q x in did_put done ∷ run limit q' ops
  run limit q (try_get ∷ ops) = let (q', out) = get q in did_get out ∷ run limit q' ops

  pub put_room :
      (limit : ℕ) (q : List A) (x : A) → length q < limit → put limit q x ≡ (q ++ (x ∷ []), true)
  unfolding put
  put_room limit q x p = ground arith

  pub put_full :
      (limit : ℕ) (q : List A) (x : A) → ¬ (length q < limit) → put limit q x ≡ (q, false)
  unfolding put
  put_full limit q x p = ground arith
