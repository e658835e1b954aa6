-- ===== src/Prelude/Outcomes.antt =====
-- What a call in C++ can do: return, fail a glog CHECK (the process dies), throw, or leave the
-- defined behaviour of the language (signed overflow, an index out of range, division by zero).
use native.Mathlib.Omega.{arith}
use mathlib.Core.Path.{◌≡◌, refl, ap}
use Prim.Native.Nat.{◌<◌, ℕ, ◌+◌, ◌%◌, ◌^◌}
use mathlib.Core.Bool.{Bool, true, false}
use mathlib.Core.List.{List}
use mathlib.Core.Option.{none, some}
use cpp_base.Prelude.Tests.{lt→ltb, ltb, ◌==◌, if◌then◌else◌}
use cpp_base.Prelude.Lists.{length, get_elem?, get_or, get_elem?-eq-get_or, set}

pub data Outcome {ℓ} (A : Type ℓ) : Type ℓ where
  ok : A → Outcome A
  fatal : Outcome A
  thrown : Outcome A
  undefined : Outcome A

infixl 5 ◌>>=◌ ◌>>◌
abbrev pub ◌>>=◌ {ℓ κ} : {A : Type ℓ} {B : Type κ} → Outcome A → (A → Outcome B) → Outcome B
ok a >>= f = f a
fatal >>= f = fatal
thrown >>= f = thrown
undefined >>= f = undefined

abbrev pub ◌>>◌ {κ} : {B : Type κ} → Outcome (Unit {0}) → Outcome B → Outcome B
m >> k = m >>= λ _. k

-- glog's CHECK
abbrev pub check : Bool → Outcome (Unit {0})
check true = ok tt
check false = fatal

-- 2 ^ 31, the first number that an `int` cannot hold.
abbrev pub int_limit : ℕ
int_limit = 2 ^ 31

-- `int` addition of numbers that are not negative.
abbrev pub add_int : ℕ → ℕ → Outcome ℕ
add_int a b = if ltb (a + b) int_limit then ok (a + b) else undefined

-- `int` remainder of numbers that are not negative.
abbrev pub mod_int : ℕ → ℕ → Outcome ℕ
mod_int a b = if b == 0 then undefined else ok (a % b)

-- `v[i]` and `v[i] = x` of a vector or an array.
abbrev pub load {ℓ} : {A : Type ℓ} → List A → ℕ → Outcome A
load xs i = elim (get_elem? xs i) [ none ↦ undefined | some a ↦ ok a ]

abbrev pub store {ℓ} : {A : Type ℓ} → List A → ℕ → A → Outcome (List A)
store xs i a = if ltb i (length xs) then ok (set xs i a) else undefined

-- In range, an access succeeds.
pub load_in {ℓ} :
    {A : Type ℓ} (xs : List A) (i : ℕ) (d : A) → i < length xs → load xs i ≡ ok (get_or xs i d)
load_in xs i d h =
    ap (λ o. elim o [ none ↦ undefined | some a ↦ ok a ]) (get_elem?-eq-get_or xs i d h)

pub store_in {ℓ} :
    {A : Type ℓ} (xs : List A) (i : ℕ) (a : A) → i < length xs → store xs i a ≡ ok (set xs i a)
store_in xs i a h = rw (lt→ltb i (length xs) h) refl

pub mod_int_in : (a b : ℕ) → 0 < b → mod_int a b ≡ ok (a % b)
mod_int_in a b h = ground arith
