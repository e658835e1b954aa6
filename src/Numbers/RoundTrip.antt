-- ===== src/Numbers/RoundTrip.antt =====
-- The parsers of string/numbers.cc read what its printers write.
use cpp_base.Prelude.{
  ℕ, suc, ◌+◌, ◌^◌, ◌<◌, ◌≤◌, ◌≡◌, refl, ap, ◌∙◌, arith, Bool, true, false, none, some, [], ◌∷◌,
  ◌++◌, All, if◌then◌else◌, inr, length-append, subst, ok, undefined, ℤ, pos, negsuc, lt→ltb,
}
use cpp_base.Bytes.{Bytes}
use cpp_base.AsciiCtype.{ascii_isspace}
use cpp_base.Numbers.Tables.{int32_max_length, int64_max_length}
use cpp_base.Numbers.Print.{simple_itoa_int32, simple_itoa_int64}
use cpp_base.Numbers.Parse.{
  IntType, int32_type, int64_type, signed, last_or, strip_sign, has_hex_prefix, strip_text,
  parse_digits, safe_strto_int_base_internal, safe_strto32, safe_strto64,
}
use cpp_base.Numbers.Decimal.{decimal, signed_decimal}
use cpp_base.Numbers.Long.{is_printable}
use cpp_base.Numbers.Itoa.{
  magnitude, simple_itoa_int32-signed_decimal, simple_itoa_int64-signed_decimal,
}
use cpp_base.Numbers.Digits.{value_of, finish}
use cpp_base.Numbers.Value.{digits_lem}
use cpp_base.Numbers.Strip.{
  not_space, strip_text_steps, strip_prefix_none, parse_stripped, safe_strto_int-parse_stripped,
}
use cpp_base.Numbers.Surround.{
  IsSpace, IsDigit, last_or-IsDigit, strip_spaces_lem, digits-IsAscii, decimal-IsDigit,
  decimal_cons, value_of-decimal,
}

abbrev is_negative : ℤ → Bool
is_negative (pos n) = false
is_negative (negsuc n) = true

no_hex_prefix : (s : Bytes) → has_hex_prefix 10 s ≡ false
unfolding has_hex_prefix
no_hex_prefix [] = refl
no_hex_prefix (b ∷ []) = refl
no_hex_prefix (b ∷ c ∷ s) = ground arith

sign_of_digit : (b : ℕ) (w : Bytes) → IsDigit b → strip_sign (b ∷ w) ≡ some (false, b ∷ w)
unfolding strip_sign
sign_of_digit b w h = ground arith

sign_of_minus : (b : ℕ) (w : Bytes) → strip_sign (b'-' ∷ b ∷ w) ≡ some (true, b ∷ w)
unfolding strip_sign
sign_of_minus b w = refl

-- The sign and the digits of a numeral, with whitespace around it.
module _ (pre post : Bytes) (hp : All IsSpace pre) (hq : All IsSpace post) where
  surrounded : Bytes → Bytes
  surrounded s = pre ++ (s ++ post)

  signed_text :
      (negative : Bool) (b : ℕ) (w t : Bytes)
      → 33 ≤ b
      → b < 128
      → ascii_isspace (last_or w b) ≡ false
      → strip_sign (b ∷ w) ≡ some (negative, t)
      → strip_text 10 (pre ++ (b ∷ w ++ post)) ≡ some (negative, 10, t)
  signed_text negative b w t lo hi h e =
      strip_text_steps 10 (pre ++ (b ∷ w ++ post)) (b ∷ w) t t negative 10
        (strip_spaces_lem _ pre b w post hp hq (not_space b lo hi) h
          (omega (arith, length-append pre (b ∷ w ++ post), length-append w post)))
        e (strip_prefix_none 10 t (no_hex_prefix t) (omega arith))

  digit_not_space : (b : ℕ) (w : Bytes) → All IsDigit (b ∷ w) → ascii_isspace (last_or w b) ≡ false
  digit_not_space b w a =
      let (lo, hi) = last_or-IsDigit b w a in not_space (last_or w b) (omega arith) (omega arith)

  strip_text-signed_decimal :
      (i : ℤ)
      → magnitude i < 10 ^ 20
      → strip_text 10 (pre ++ (signed_decimal i ++ post))
        ≡ some (is_negative i, 10, decimal (magnitude i))
  unfolding signed_decimal
  strip_text-signed_decimal (pos n) h =
      let (b, w, e) = decimal_cons n h in
      let a = subst (All IsDigit) e (decimal-IsDigit n h) in
      rw e (
        signed_text false b w (b ∷ w) (omega (arith, (a.0).0)) (omega (arith, (a.0).1))
          (digit_not_space b w a) (sign_of_digit b w a.0))
  strip_text-signed_decimal (negsuc n) h =
      let (b, w, e) = decimal_cons (n + 1) h in
      let a = subst (All IsDigit) e (decimal-IsDigit (n + 1) h) in
      rw e (
        signed_text true b'-' (b ∷ w) (b ∷ w) (omega arith) (omega arith) (digit_not_space b w a)
          (sign_of_minus b w))

  finish-magnitude :
      (limit : ℕ) (i : ℤ)
      → magnitude i < limit
      → finish limit (is_negative i) (some (magnitude i)) ≡ ok (some i)
  unfolding finish
  finish-magnitude limit (pos n) h = rw (lt→ltb n limit h) refl
  finish-magnitude limit (negsuc n) h =
      rw (lt→ltb (n + 1) limit h)
        (ap (λ m. ok (some (signed true m))) {x = n + 1} {y = suc n} (omega arith))

  -- The code on a numeral, for a type whose digits are read right.
  reads_back :
      (t : IntType) (max_length : ℕ) (i : ℤ)
      → magnitude i < 10 ^ 20
      → magnitude i < t.limit
      → parse_digits t max_length 10 (is_negative i) (decimal (magnitude i))
        ≡ finish t.limit (is_negative i) (value_of 10 0 (decimal (magnitude i)))
      → safe_strto_int_base_internal t (pre ++ (signed_decimal i ++ post)) 10 max_length
        ≡ ok (some i)
  unfolding parse_stripped
  reads_back t max_length i h l e =
      safe_strto_int-parse_stripped t (pre ++ (signed_decimal i ++ post)) 10 max_length
      ∙ ap
          (λ o. elim o [
            | none ↦ ok none
            | some (negative, base', w) ↦ parse_digits t max_length base' negative w
          ])
          (strip_text-signed_decimal i h)
      ∙ e
      ∙ ap (finish t.limit (is_negative i)) (value_of-decimal (magnitude i) h)
      ∙ finish-magnitude t.limit i l

  -- What the parsers read of the reference's numerals.
  both_read :
      (i : ℤ)
      → magnitude i < 10 ^ 20
      → (magnitude i < 2 ^ 31 → safe_strto32 (pre ++ (signed_decimal i ++ post)) ≡ ok (some i))
        × (magnitude i < 2 ^ 63 → safe_strto64 (pre ++ (signed_decimal i ++ post)) ≡ ok (some i))
  unfolding safe_strto32 safe_strto64 int32_max_length int64_max_length int32_type int64_type
  both_read i h =
      let digits =
        digits_lem 10 10 19 (is_negative i) (decimal (magnitude i)) (omega arith) (omega arith)
          (inr refl) (inr refl) (digits-IsAscii _ (decimal-IsDigit (magnitude i) h)) in
      (
        (λ l. reads_back int32_type 10 i h l digits.0),
        (λ l. reads_back int64_type 19 i h l digits.1),
      )

-- SimpleItoa of every int32 but the least one gives a text, and safe_strto32 reads the number from
-- that text with any whitespace around it.
pub safe_strto32-simple_itoa_int32 :
    (i : ℤ) (pre post : Bytes)
    → magnitude i < 2 ^ 31
    → All IsSpace pre
    → All IsSpace post
    → (text : Bytes) × (simple_itoa_int32 i ≡ ok text)
      × (safe_strto32 (pre ++ (text ++ post)) ≡ ok (some i))
safe_strto32-simple_itoa_int32 i pre post h hp hq = (
  signed_decimal i,
  simple_itoa_int32-signed_decimal i h,
  (both_read pre post hp hq i (omega arith)).0 h,
)

-- SimpleItoa of every printable int64 but the least one gives a text, and safe_strto64 reads the
-- number from that text with any whitespace around it.
pub safe_strto64-simple_itoa_int64 :
    (i : ℤ) (pre post : Bytes)
    → magnitude i < 2 ^ 63
    → is_printable (magnitude i) ≡ true
    → All IsSpace pre
    → All IsSpace post
    → (text : Bytes) × (simple_itoa_int64 i ≡ ok text)
      × (safe_strto64 (pre ++ (text ++ post)) ≡ ok (some i))
safe_strto64-simple_itoa_int64 i pre post h k hp hq = (
  signed_decimal i,
  simple_itoa_int64-signed_decimal i h ∙ ap (λ b. if b then ok (signed_decimal i) else undefined) k,
  (both_read pre post hp hq i (omega arith)).1 h,
)
