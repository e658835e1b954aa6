-- ===== src/Uri/Codec.antt =====
-- UrlDecode after UrlEncode (http/uri.cc), on every text.
use cpp_base.Prelude.{
  ℕ, ◌/◌, ◌%◌, ◌<◌, ◌≡◌, refl, true, Option, none, some, [], ◌∷◌, ◌++◌, arith, ltb, if◌then◌else◌,
  Outcome, ok, thrown, ◌>>=◌, All, ap, ◌∙◌, Bool-cases, inl, inr,
}
use cpp_base.Bytes.{Bytes}
use cpp_base.Uri.{
  hex_digit, print_02x, is_plain, url_encode, url_decode, decode_to, prepend, unplus, hex_to_char,
}
use cpp_base.Uri.Hex.{
  printed, print_02x-printed, scan-digits, high_digit, low_digit, is_safe, digit_safe, plain_safe,
}

decode_plain :
    (c : ℕ) (rest : Bytes) → is_safe c ≡ true → decode_to (c ∷ rest) ≡ prepend c (decode_to rest)
unfolding decode_to unplus
decode_plain c [] h = ground arith
decode_plain c (a ∷ []) h = ground arith
decode_plain c (a ∷ b ∷ s) h = ground arith

hex_to_char-digits : (c : ℕ) → c < 256 → hex_to_char (high_digit c ∷ low_digit c ∷ []) ≡ ok c
unfolding hex_to_char
hex_to_char-digits c h = ap (λ o. elim o [ none ↦ thrown | some v ↦ ok v ]) (scan-digits c h)

decode_digits :
    (c : ℕ) (rest : Bytes)
    → c < 256
    → decode_to (b'%' ∷ high_digit c ∷ low_digit c ∷ rest) ≡ prepend c (decode_to rest)
unfolding decode_to
decode_digits c rest h = ap (λ o. o >>= λ v. prepend v (decode_to rest)) (hex_to_char-digits c h)

-- The texts that url_decode takes for a byte and for a text.
unfoldable pub reading : ℕ → Bytes
unfolding hex_digit
reading c =
    if ltb c 128 then c ∷ [] else 255 ∷ b'f' ∷ b'f' ∷ b'f' ∷ b'f' ∷ high_digit c ∷ low_digit c ∷ []

unfoldable pub readings : Bytes → Bytes
unfolding reading
readings [] = []
readings (c ∷ s) = if is_plain c then c ∷ readings s else reading c ++ readings s

abbrev pub prepends : Bytes → Outcome (Option Bytes) → Outcome (Option Bytes)
prepends [] m = m
prepends (c ∷ s) m = prepend c (prepends s m)

digits_plain :
    (c : ℕ) (rest : Bytes)
    → c < 256
    → decode_to (high_digit c ∷ low_digit c ∷ rest)
      ≡ prepend (high_digit c) (prepend (low_digit c) (decode_to rest))
digits_plain c rest h =
    decode_plain (high_digit c) (low_digit c ∷ rest) (digit_safe (c / 16) (omega arith))
    ∙ ap (prepend (high_digit c))
        (decode_plain (low_digit c) rest (digit_safe (c % 16) (omega arith)))

decode_printed :
    (c : ℕ) (rest : Bytes)
    → c < 256
    → decode_to (b'%' ∷ (print_02x c ++ rest)) ≡ prepends (reading c) (decode_to rest)
unfolding reading printed hex_digit
decode_printed c rest h = rw (print_02x-printed c h) (elim (Bool-cases (ltb c 128)) [
  | inl e ↦ rw (e, printed, reading) (decode_digits c rest h)
  | inr e ↦
      rw (e, printed, reading)
        (decode_digits 255 _ (omega arith)
          ∙ ap (prepend 255) (
              decode_plain b'f' _ refl
              ∙ ap (prepend b'f') (
                  decode_plain b'f' _ refl
                  ∙ ap (prepend b'f') (
                      decode_plain b'f' _ refl
                      ∙ ap (prepend b'f')
                          (decode_plain b'f' _ refl ∙ ap (prepend b'f') (digits_plain c rest h))))))
])

prepends-ok : (s t : Bytes) → prepends s (ok (some t)) ≡ ok (some (s ++ t))
prepends-ok [] t = refl
prepends-ok (c ∷ s) t = ap (prepend c) (prepends-ok s t)

decode_to-url_encode :
    (s : Bytes) → All (λ c. c < 256) s → decode_to (url_encode s) ≡ ok (some (readings s))
unfolding url_encode readings
decode_to-url_encode [] h = unfold decode_to in refl
decode_to-url_encode (c ∷ s) (h, hs) = elim (Bool-cases (is_plain c)) [
  | inl e ↦
      rw e (
        decode_plain c (url_encode s) (plain_safe c e) ∙ ap (prepend c) (decode_to-url_encode s hs))
  | inr e ↦ rw e (
      decode_printed c (url_encode s) h
      ∙ ap (prepends (reading c)) (decode_to-url_encode s hs)
      ∙ prepends-ok (reading c) (readings s))
]

-- UrlDecode of what UrlEncode writes never throws and never fails. It gives back each byte below
-- 128, and for each other byte, which is a negative char, the seven bytes 255, `ffff` and its two
-- hexadecimal digits.
pub url_decode-url_encode :
    (s : Bytes) → All (λ c. c < 256) s → url_decode (url_encode s) ≡ ok (readings s)
unfolding url_decode
url_decode-url_encode s h = rw (decode_to-url_encode s h) refl

readings-ascii : (s : Bytes) → All (λ c. c < 128) s → readings s ≡ s
unfolding readings reading
readings-ascii [] h = refl
readings-ascii (c ∷ s) (h, hs) = ground (arith, readings-ascii s hs)

pub ascii_bytes : (s : Bytes) → All (λ c. c < 128) s → All (λ c. c < 256) s
ascii_bytes [] h = tt
ascii_bytes (c ∷ s) (h, hs) = (omega arith, ascii_bytes s hs)

-- UrlDecode gives back the text that UrlEncode was given, where each byte of it is below 128.
pub url_decode-url_encode_ascii :
    (s : Bytes) → All (λ c. c < 128) s → url_decode (url_encode s) ≡ ok s
url_decode-url_encode_ascii s h =
    url_decode-url_encode s (ascii_bytes s h) ∙ ap ok (readings-ascii s h)
