-- ===== src/Numbers/Tests.antt =====
-- Runs of the printers and parsers, and the theorems on them at inputs.
use native.Mathlib.Decide.{dec_lt}
use cpp_base.Bytes.{Bytes}
use cpp_base.Prelude.{
  ◌≡◌, refl, arith, [], ◌∷◌, ◌++◌, ◌^◌, some, true, inl, inr, if◌then◌else◌, ok, undefined, pos,
  negsuc,
}
use cpp_base.AsciiCtype.{ascii_isspace}
use cpp_base.Numbers.Tables.{int32_max_length}
use cpp_base.Numbers.Decimal.{signed_decimal}
use cpp_base.Numbers.Long.{is_printable}
use cpp_base.Numbers.Itoa.{simple_itoa_int64-signed_decimal}
use cpp_base.Numbers.Digits.{value_of, finish}
use cpp_base.Numbers.Value.{digits_lem}
use cpp_base.Numbers.Strip.{parse_stripped, safe_strto_int-parse_stripped}
use cpp_base.Numbers.RoundTrip.{safe_strto32-simple_itoa_int32, safe_strto64-simple_itoa_int64}
use cpp_base.Numbers.Parse.{
  int32_type, int64_type, parse_digits, safe_strto_int_base_internal, safe_strto32, safe_strto64,
  safe_strto32_base,
}
use cpp_base.Numbers.Print.{simple_itoa_int32, simple_itoa_int64, fast_hex32_to_buffer}

itoa_run :
    simple_itoa_int64 (negsuc 4500000000016)
    ≡ ok (
        b'-' ∷ b'4' ∷ b'5' ∷ b'0' ∷ b'0' ∷ b'0' ∷ b'0' ∷ b'0' ∷ b'0' ∷ b'0' ∷ b'0' ∷ b'0' ∷ b'1'
        ∷ b'7' ∷ [])
unfolding simple_itoa_int64 dec_lt
itoa_run = refl

hex_run : fast_hex32_to_buffer 48879 ≡ b'0' ∷ b'0' ∷ b'0' ∷ b'0' ∷ b'b' ∷ b'e' ∷ b'e' ∷ b'f' ∷ []
unfolding fast_hex32_to_buffer
hex_run = refl

-- The least int32 cannot be read: its magnitude overflows.
least_int32 :
    safe_strto32 (b'-' ∷ b'2' ∷ b'1' ∷ b'4' ∷ b'7' ∷ b'4' ∷ b'8' ∷ b'3' ∷ b'6' ∷ b'4' ∷ b'8' ∷ [])
    ≡ undefined
unfolding safe_strto32
least_int32 = refl

hex_read : safe_strto32_base (b' ' ∷ b'0' ∷ b'X' ∷ b'f' ∷ b'F' ∷ []) 0 ≡ ok (some (pos 255))
unfolding safe_strto32_base
hex_read = refl

safe_strto32-simple_itoa_int32_example :
    (text : Bytes) × (simple_itoa_int32 (negsuc 41) ≡ ok text)
    × (safe_strto32 ((b' ' ∷ []) ++ (text ++ (10 ∷ []))) ≡ ok (some (negsuc 41)))
unfolding ascii_isspace
safe_strto32-simple_itoa_int32_example =
    safe_strto32-simple_itoa_int32 (negsuc 41) (b' ' ∷ []) (10 ∷ []) (omega arith) (refl, tt)
      (refl, tt)

safe_strto64-simple_itoa_int64_example :
    (text : Bytes) × (simple_itoa_int64 (pos 4500000000) ≡ ok text)
    × (safe_strto64 ((b' ' ∷ []) ++ (text ++ [])) ≡ ok (some (pos 4500000000)))
unfolding ascii_isspace is_printable
safe_strto64-simple_itoa_int64_example =
    safe_strto64-simple_itoa_int64 (pos 4500000000) (b' ' ∷ []) [] (omega arith) refl (refl, tt) tt

simple_itoa_int64-signed_decimal_example :
    simple_itoa_int64 (negsuc 2999999999)
    ≡ (if is_printable 3000000000 then ok (signed_decimal (negsuc 2999999999)) else undefined)
simple_itoa_int64-signed_decimal_example =
    simple_itoa_int64-signed_decimal (negsuc 2999999999) (omega arith)

digits_lem_example :
    (parse_digits int32_type 6 36 true (b'z' ∷ b'Z' ∷ [])
      ≡ finish (2 ^ 31) true (value_of 36 0 (b'z' ∷ b'Z' ∷ [])))
    × (parse_digits int64_type 0 36 true (b'z' ∷ b'Z' ∷ [])
        ≡ finish (2 ^ 63) true (value_of 36 0 (b'z' ∷ b'Z' ∷ [])))
unfolding int32_max_length
digits_lem_example =
    digits_lem 36 6 0 true (b'z' ∷ b'Z' ∷ []) (omega arith) (omega arith) (inr refl) (inl refl)
      (omega arith, (omega arith, tt))

safe_strto_int-parse_stripped_example :
    safe_strto_int_base_internal int32_type (b'7' ∷ b'1' ∷ []) 10 10
    ≡ parse_stripped int32_type 10 10 (b'7' ∷ b'1' ∷ [])
safe_strto_int-parse_stripped_example =
    safe_strto_int-parse_stripped int32_type (b'7' ∷ b'1' ∷ []) 10 10
