-- ===== src/Uri.antt =====
-- The percent coding, the query string and the parameters of http/uri.cc. A `char` is signed, as on
-- the platforms the code is built for, so a byte from 128 on is negative when it is printed by
-- `%02x`; a text is its bytes. std::regex, which ParseUri rests on, is not modelled.
pub mod Hex
pub mod Codec
pub mod Query
pub mod Params
mod Tests
use cpp_base.Bytes.{Bytes, bytes_eq}
use cpp_base.Prelude.{
  ℕ, zero, suc, ◌+◌, ◌-◌, ◌*◌, ◌/◌, ◌%◌, ◌^◌, Bool, true, false, not, Option, none, some, List, [],
  ◌∷◌, ◌++◌, ◌&&◌, ◌||◌, Outcome, ok, thrown, ◌>>=◌, ltb, leb, ◌==◌, if◌then◌else◌, length,
}

unfoldable pub hex_digit : ℕ → ℕ
hex_digit d = if ltb d 10 then b'0' + d else b'a' + (d - 10)

-- The digits of a number below 16 ^ fuel, without leading zeros.
unfoldable pub hex_digits : ℕ → ℕ → Bytes
unfolding hex_digit
hex_digits zero v = []
hex_digits (suc fuel) v = elim (ltb v 16) [
  | true ↦ hex_digit v ∷ []
  | false ↦ hex_digits fuel (v / 16) ++ (hex_digit (v % 16) ∷ [])
]

-- `%02x` of a `char`: it is promoted to `int` and read as `unsigned`, of 32 bits.
unfoldable pub print_02x : ℕ → Bytes
unfolding hex_digits
print_02x c =
    let v = if ltb c 128 then c else 2 ^ 32 - 256 + c in
    if ltb v 16 then b'0' ∷ hex_digits 8 v else hex_digits 8 v

unfoldable pub is_plain : ℕ → Bool
is_plain c =
    leb b'a' c && leb c b'z' || leb b'A' c && leb c b'Z' || leb b'0' c && leb c b'9' || c == b'/'

unfoldable pub url_encode : Bytes → Bytes
unfolding is_plain print_02x
url_encode [] = []
url_encode (c ∷ s) =
    let rest = url_encode s in if is_plain c then c ∷ rest else b'%' ∷ (print_02x c ++ rest)

unfoldable pub hex_value : ℕ → Option ℕ
hex_value c =
    if leb b'0' c && leb c b'9'
    then some (c - b'0')
    else if leb b'a' c && leb c b'f'
    then some (c - b'a' + 10)
    else if leb b'A' c && leb c b'F'
    then some (c - b'A' + 10)
    else none

-- `sscanf` of `%02hhx` on two characters: white space is skipped, a sign may stand first, and a
-- prefix `0x` with no digit behind it does not match. None: no conversion.
unfoldable pub scan_field : Bytes → Option ℕ
unfolding hex_value
scan_field [] = none
scan_field (a ∷ []) = hex_value a
scan_field (a ∷ b ∷ s) =
    if a == b'+'
    then hex_value b
    else if a == b'-'
    then (elim (hex_value b) [ none ↦ none | some v ↦ some ((256 - v) % 256) ])
    else if a == b'0' && (b == b'x' || b == b'X')
    then none
    else elim (hex_value a) [
      | none ↦ none
      | some v ↦ elim (hex_value b) [ none ↦ some v | some w ↦ some (16 * v + w) ]
    ]

unfoldable pub is_space : ℕ → Bool
is_space c = c == 32 || leb 9 c && leb c 13

unfoldable pub scan_hex : Bytes → Option ℕ
unfolding is_space scan_field
scan_hex [] = none
scan_hex (a ∷ s) = let rest = scan_hex s in if is_space a then rest else scan_field (a ∷ s)

unfoldable pub hex_to_char : Bytes → Outcome ℕ
unfolding scan_hex
hex_to_char s = elim (scan_hex s) [ none ↦ thrown | some v ↦ ok v ]

abbrev pub prepend : ℕ → Outcome (Option Bytes) → Outcome (Option Bytes)
prepend c m = m >>= λ o. ok (elim o [ none ↦ none | some s ↦ some (c ∷ s) ])

unfoldable pub unplus : ℕ → ℕ
unplus c = if c == b'+' then 32 else c

-- UrlDecode with the output text: none where it returns false.
unfoldable pub decode_to : Bytes → Outcome (Option Bytes)
unfolding unplus hex_to_char
decode_to [] = ok (some [])
decode_to (c ∷ []) = if c == b'%' then ok none else ok (some (unplus c ∷ []))
decode_to (c ∷ a ∷ []) =
    let rest = decode_to (a ∷ []) in if c == b'%' then ok none else prepend (unplus c) rest
decode_to (c ∷ a ∷ b ∷ s) = elim (c == b'%') [
  | true ↦ hex_to_char (a ∷ b ∷ []) >>= λ v. prepend v (decode_to s)
  | false ↦ prepend (unplus c) (decode_to (a ∷ b ∷ s))
]

unfoldable pub url_decode : Bytes → Outcome Bytes
unfolding decode_to
url_decode s = decode_to s >>= λ o. ok (elim o [ none ↦ [] | some t ↦ t ])

pub record Param : Type 0 where
  pub key : Bytes
  pub value : Bytes

unfoldable pub decode_param : Bytes → Bytes → Outcome Param
unfolding url_decode
decode_param key value = do
  k ← url_decode key
  v ← url_decode value
  ok (record { key = k; value = v })

unfoldable pub is_empty : Bytes → Bool
is_empty [] = true
is_empty (c ∷ s) = false

-- The loop of ParseQueryString: whether a value is read, the key and the value so far, the
-- parameters so far. An empty key ends it.
unfoldable pub parse_from : Bool → Bytes → Bytes → List Param → Bytes → Outcome (List Param)
unfolding decode_param is_empty
parse_from reading_value key value params [] =
    if is_empty key then ok params else decode_param key value >>= λ p. ok (params ++ (p ∷ []))
parse_from false key value params (c ∷ s) = elim (c == b'=') [
  | true ↦ elim (is_empty key) [ true ↦ ok params | false ↦ parse_from true key value params s ]
  | false ↦ parse_from false (key ++ (c ∷ [])) value params s
]
parse_from true key value params (c ∷ s) = elim (c == b'&') [
  | true ↦ decode_param key value >>= λ p. parse_from false [] [] (params ++ (p ∷ [])) s
  | false ↦ parse_from true key (value ++ (c ∷ [])) params s
]

unfoldable pub parse_query_string : Bytes → Outcome (List Param)
unfolding parse_from
parse_query_string s = parse_from false [] [] [] s

-- The parameters as Assemble writes them behind the `?`.
unfoldable pub assemble_params : List Param → Bytes
unfolding url_encode
assemble_params [] = []
assemble_params (p ∷ []) = url_encode p.key ++ (b'=' ∷ url_encode p.value)
assemble_params (p ∷ q ∷ ps) =
    url_encode p.key ++ (b'=' ∷ (url_encode p.value ++ (b'&' ∷ assemble_params (q ∷ ps))))

unfoldable pub add_param : List Param → Bytes → Bytes → List Param
add_param params key value = params ++ (record { key = key; value = value } ∷ [])

-- The loop of SetParam, with AddParam where it ends.
unfoldable pub set_param : List Param → Bytes → Bytes → List Param
unfolding bytes_eq
set_param [] key value = record { key = key; value = value } ∷ []
set_param (p ∷ params) key value =
    let rest = set_param params key value in
    if bytes_eq p.key key then record p { value = value } ∷ params else p ∷ rest

unfoldable pub get_param : List Param → Bytes → Bytes
unfolding bytes_eq
get_param [] key = []
get_param (p ∷ params) key = if bytes_eq p.key key then p.value else get_param params key
