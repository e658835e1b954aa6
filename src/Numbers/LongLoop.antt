-- ===== src/Numbers/LongLoop.antt =====
-- The loop of safe_strtoIntType_base_internal (string/numbers.cc) that looks for overflow.
use native.Mathlib.Nat.{mul-le-mul_right}
use cpp_base.Prelude.{
  ℕ, ◌+◌, ◌*◌, ◌<◌, ◌≤◌, ◌≡◌, ap, ◌∙◌, sym, arith, Bool, none, some, [], ◌∷◌, All, leb, ◌==◌, ◌&&◌,
  if◌then◌else◌, ok, ◌>>=◌, if_split, leb→le, Bool-cases, Option-cases, inl, inr,
}
use cpp_base.Bytes.{Bytes}
use cpp_base.Numbers.Parse.{extend, store_value, is_last_fit, parse_long, is_empty_text}
use cpp_base.Numbers.Digits.{
  IsAscii, digit_value, value_of, finish, step_cases, value_of_bad, value_of_good, value_of_grows,
}

pub store_value_fits :
    (limit : ℕ) (negative : Bool) (value : ℕ)
    → value < limit
    → store_value limit negative value ≡ finish limit negative (some value)
unfolding store_value finish
store_value_fits limit negative value h = ground arith

pub extend_fits :
    (limit base value digit : ℕ)
    → value * base + digit < limit
    → extend limit base value digit ≡ ok (value * base + digit)
unfolding extend
extend_fits limit base value digit h = ground arith

-- The rows of the tables for a base: the greatest value of the type by quotient and remainder.
module _ (limit base cutoff remainder : ℕ) (hb : 2 ≤ base) (hc : 2 ≤ cutoff) (hr : remainder < base)
    (hl : cutoff * base + remainder + 1 ≡ limit) where
  -- A number of another digit that is past the limit is refused.
  finish_past : (negative : Bool) (n : ℕ) → limit < n → finish limit negative (some n) ≡ ok none
  unfolding finish
  finish_past negative n h = ground arith

  more_digits :
      (negative : Bool) (value c : ℕ) (s : Bytes)
      → cutoff * base ≤ value
      → ok none ≡ finish limit negative (value_of base value (c ∷ s))
  more_digits negative value c s h = elim (Bool-cases (leb base (digit_value c))) [
    | inl f ↦
        unfold finish in
        ap (finish limit negative) (sym (value_of_bad base value c s (leb→le _ _ f)))
    | inr f ↦ elim (Option-cases (value_of base (value * base + digit_value c) s)) [
      | inl none_is ↦
          unfold finish in
          ap (finish limit negative) (sym (value_of_good base value c s (ground arith) ∙ none_is))
      | inr (n, some_is) ↦
          let grown =
            value_of_grows base (value * base + digit_value c) s n (omega arith) some_is in
          let twice = mul-le-mul_right base h in
          let big : limit < n = omega (
            arith,
            twice,
            grown,
            mul-le-mul_right base hc,
            mul-le-mul_right {m = 2} {n = base} (cutoff * base) hb,
          ) in
          sym (
            ap (finish limit negative) (value_of_good base value c s (ground arith) ∙ some_is)
            ∙ finish_past negative n big)
    ]
  ]

  last_digit :
      (negative : Bool) (value digit : ℕ)
      → digit < base
      → cutoff ≤ value
      → (if is_last_fit base cutoff remainder negative value digit
          then store_value limit negative (value * base + digit)
          else ok none)
        ≡ finish limit negative (some (value * base + digit))
  unfolding is_last_fit store_value finish
  last_digit negative value digit hd hv = elim (Bool-cases (value == cutoff)) [
    | inl f ↦
        let e : value * base ≡ cutoff * base =
          ap (λ v. v * base) {x = value} {y = cutoff} (ground arith) in
        ground (arith, e)
    | inr f ↦ elim (Bool-cases (value == cutoff + 1)) [
      | inl g ↦
          let e : value * base ≡ cutoff * base + base =
            ap (λ v. v * base) {x = value} {y = cutoff + 1} (ground arith) ∙ omega arith in
          ground (arith, e)
      | inr g ↦
          let l : cutoff * base + 2 * base ≤ value * base =
            omega (arith, mul-le-mul_right {m = cutoff + 2} {n = value} base (ground arith)) in
          ground (arith, l)
    ]
  ]

  -- A digit behind a number that has reached the cutoff.
  at_cutoff :
      (negative : Bool) (value c : ℕ) (s : Bytes)
      → cutoff ≤ value
      → digit_value c < base
      → (if is_empty_text s && is_last_fit base cutoff remainder negative value (digit_value c)
          then store_value limit negative (value * base + digit_value c)
          else ok none)
        ≡ finish limit negative (value_of base value (c ∷ s))
  unfolding value_of
  at_cutoff negative value c [] h good =
      last_digit negative value (digit_value c) good h
      ∙ ap (finish limit negative) (sym (value_of_good base value c [] good))
  at_cutoff negative value c (c' ∷ s) h good =
      more_digits negative (value * base + digit_value c) c' s
        (omega (arith, mul-le-mul_right base h))
      ∙ ap (finish limit negative) (sym (value_of_good base value c (c' ∷ s) good))

  pub parse_long-value_of :
      (negative : Bool) (value : ℕ) (s : Bytes)
      → value < limit
      → All IsAscii s
      → parse_long limit base cutoff remainder negative value s
        ≡ finish limit negative (value_of base value s)
  unfolding parse_long value_of finish
  parse_long-value_of negative value [] h a = store_value_fits limit negative value h
  parse_long-value_of negative value (c ∷ s) h (hc', a) =
      step_cases c base _ hc'
        (λ bad. ap (finish limit negative) (sym (value_of_bad base value c s bad)))
        (λ good.
          if_split (leb cutoff value) (λ late. at_cutoff negative value c s (leb→le _ _ late) good)
            (λ early.
              let low : (value + 1) * base ≤ cutoff * base =
                mul-le-mul_right base (ground (arith, early)) in
              let fits : value * base + digit_value c < limit = omega arith in
              ap (λ o. o >>= λ v. parse_long limit base cutoff remainder negative v s)
                (extend_fits limit base value (digit_value c) fits)
              ∙ parse_long-value_of negative (value * base + digit_value c) s fits a
              ∙ ap (finish limit negative) (sym (value_of_good base value c s good))))
