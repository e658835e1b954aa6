-- ===== src/Numbers/Digits.antt =====
-- The loops over digits of safe_strtoIntType_base_internal in string/numbers.cc, against the value
-- that the digits denote.
use cpp_base.Prelude.{
  ℕ, ◌+◌, ◌-◌, ◌*◌, ◌<◌, ◌≤◌, ◌≡◌, refl, ap, ◌∙◌, arith, Bool, Option, none, some, [], ◌∷◌, ltb,
  leb, ◌==◌, ◌&&◌, if◌then◌else◌, get_or, Outcome, ok, undefined, ◌>>=◌, load_in, ℤ, if_split,
  leb→le, lt→ltb, passes, passes_at, ==_iff, Bool-cases, inl, inr,
}
use cpp_base.Bytes.{Bytes}
use cpp_base.Numbers.Tables.{ascii_to_int}
use cpp_base.Numbers.Parse.{digit_of, signed}

abbrev pub IsAscii : ℕ → Type 0
IsAscii c = c < 128

-- The value of a digit in bases up to 36; 36 for any other character.
unfoldable pub digit_value : ℕ → ℕ
digit_value c =
    if leb b'0' c && leb c b'9'
    then c - b'0'
    else if leb b'a' c && leb c b'z'
    then c - b'a' + 10
    else if leb b'A' c && leb c b'Z'
    then c - b'A' + 10
    else 36

-- The number that digits denote behind a number that is read, if all are digits of the base.
unfoldable pub value_of : ℕ → ℕ → Bytes → Option ℕ
unfolding digit_value
value_of base value [] = some value
value_of base value (c ∷ s) =
    let rest = value_of base (value * base + digit_value c) s in
    if leb base (digit_value c) then none else rest

-- The result for a number: it is stored where it fits the type; the least number of the type, whose
-- magnitude does not fit, overflows; any other is refused.
unfoldable pub finish : ℕ → Bool → Option ℕ → Outcome (Option ℤ)
finish limit negative none = ok none
finish limit negative (some n) =
    if ltb n limit
    then ok (some (signed negative n))
    else if negative && n == limit
    then undefined
    else ok none

pub digit_of-digit_value : (c : ℕ) → IsAscii c → digit_of c ≡ ok (digit_value c)
unfolding digit_of digit_value ascii_to_int passes
digit_of-digit_value c h = rw (lt→ltb c 128 h) (
    load_in ascii_to_int c 0 (omega arith)
    ∙ ap ok
        ((==_iff _ _).0 (passes_at (λ k. get_or ascii_to_int k 0 == digit_value k) 128 refl c h)))

-- A step on a digit.
pub step_cases :
    {A : Type 0} (c base : ℕ) (k : ℕ → Outcome (Option A)) {z : Outcome (Option A)}
    → IsAscii c
    → (base ≤ digit_value c → ok none ≡ z)
    → (digit_value c < base → k (digit_value c) ≡ z)
    → (digit_of c >>= λ d. if leb base d then ok none else k d) ≡ z
step_cases c base k h f g =
    ap (λ o. o >>= λ d. if leb base d then ok none else k d) (digit_of-digit_value c h)
    ∙ if_split (leb base (digit_value c)) (λ e. f (leb→le _ _ e)) (λ e. g (ground arith))

pub value_of_bad :
    (base value c : ℕ) (s : Bytes) → base ≤ digit_value c → value_of base value (c ∷ s) ≡ none
unfolding value_of
value_of_bad base value c s h = ground arith

pub value_of_good :
    (base value c : ℕ) (s : Bytes)
    → digit_value c < base
    → value_of base value (c ∷ s) ≡ value_of base (value * base + digit_value c) s
unfolding value_of
value_of_good base value c s h = ground arith

-- A number only grows.
pub value_of_grows :
    (base value : ℕ) (s : Bytes) (n : ℕ) → 1 ≤ base → value_of base value s ≡ some n → value ≤ n
unfolding value_of
value_of_grows base value [] n h e = ground arith
value_of_grows base value (c ∷ s) n h e = elim (Bool-cases (leb base (digit_value c))) [
  | inl f ↦ ground arith
  | inr f ↦
      let less = value_of_grows base (value * base + digit_value c) s n h (ground (arith, e, f)) in
      grind (arith, less)
]
