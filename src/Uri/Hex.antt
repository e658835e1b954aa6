-- ===== src/Uri/Hex.antt =====
-- The hexadecimal digits that UrlEncode prints and UrlDecode reads (http/uri.cc), by tables.
use cpp_base.Prelude.{
  passes, passes_at, ℕ, ◌/◌, ◌%◌, ◌<◌, ◌≡◌, refl, Bool, true, false, not, ◌&&◌, none, some, [], ◌∷◌,
  arith, ltb, ◌==◌, if◌then◌else◌,
}
use cpp_base.Bytes.{Bytes, bytes_eq, bytes_eq_iff}
use cpp_base.Uri.{hex_digit, print_02x, scan_hex, is_plain}

abbrev pub high_digit : ℕ → ℕ
high_digit c = hex_digit (c / 16)

abbrev pub low_digit : ℕ → ℕ
low_digit c = hex_digit (c % 16)

-- What is printed for a byte.
unfoldable pub printed : ℕ → Bytes
printed c =
    if ltb c 128
    then high_digit c ∷ low_digit c ∷ []
    else b'f' ∷ b'f' ∷ b'f' ∷ b'f' ∷ b'f' ∷ b'f' ∷ high_digit c ∷ low_digit c ∷ []

abbrev prints : ℕ → Bool
prints c = bytes_eq (print_02x c) (printed c)

printed_table : passes prints 256 ≡ true
unfolding passes bytes_eq print_02x printed
printed_table = refl

pub print_02x-printed : (c : ℕ) → c < 256 → print_02x c ≡ printed c
print_02x-printed c h = (bytes_eq_iff _ _).0 (passes_at prints 256 printed_table c h)

abbrev reads_back : ℕ → Bool
reads_back c = elim (scan_hex (high_digit c ∷ low_digit c ∷ [])) [ none ↦ false | some v ↦ v == c ]

scan_table : passes reads_back 256 ≡ true
unfolding passes scan_hex hex_digit
scan_table = refl

pub scan-digits : (c : ℕ) → c < 256 → scan_hex (high_digit c ∷ low_digit c ∷ []) ≡ some c
scan-digits c h = ground (arith, passes_at reads_back 256 scan_table c h)

-- A digit is no `%`, `+`, `=` or `&`.
abbrev pub is_safe : ℕ → Bool
is_safe c = not (c == b'%') && not (c == b'+') && not (c == b'=') && not (c == b'&')

digit_table : passes (λ d. is_safe (hex_digit d)) 16 ≡ true
unfolding passes hex_digit
digit_table = refl

pub digit_safe : (d : ℕ) → d < 16 → is_safe (hex_digit d) ≡ true
digit_safe d h = passes_at (λ d. is_safe (hex_digit d)) 16 digit_table d h

pub plain_safe : (c : ℕ) → is_plain c ≡ true → is_safe c ≡ true
unfolding is_plain
plain_safe c h = ground arith
