-- ===== src/Numbers/Parse.antt =====
-- The parsers of string/numbers.cc. A text from `startptr` to `endptr` is a list of bytes; a char is
-- signed, so a byte from 128 on is a negative char. `none` is the result false.
use Prim.Native.Nat.{bit_or}
use cpp_base.Prelude.{
  ℕ, zero, suc, ◌+◌, ◌-◌, ◌*◌, ◌%◌, ◌^◌, Bool, true, false, Option, none, some, List, [], ◌∷◌,
  length, ltb, leb, ◌==◌, ◌&&◌, ◌||◌, if◌then◌else◌, Outcome, ok, undefined, ◌>>=◌, load, ℤ, pos,
  negsuc,
}
use cpp_base.Bytes.{Bytes}
use cpp_base.AsciiCtype.{ascii_isspace}
use cpp_base.Numbers.Tables.{
  int32_max_length, int32_cutoff, int32_remain, int64_max_length, int64_cutoff, int64_remain,
  ascii_to_int,
}

-- The parameters of the template: one more than the maximum of IntType, and the two tables.
pub record IntType : Type 0 where
  pub limit : ℕ
  pub cutoff : List ℕ
  pub remainder : List ℕ

unfoldable pub int32_type : IntType
unfolding int32_cutoff int32_remain
int32_type = record { limit = 2 ^ 31; cutoff = int32_cutoff; remainder = int32_remain }

unfoldable pub int64_type : IntType
unfolding int64_cutoff int64_remain
int64_type = record { limit = 2 ^ 63; cutoff = int64_cutoff; remainder = int64_remain }

abbrev pub last_or : Bytes → ℕ → ℕ
last_or [] c = c
last_or (b ∷ s) c = last_or s b

abbrev pub but_last : Bytes → Bytes
but_last [] = []
but_last (b ∷ []) = []
but_last (b ∷ c ∷ s) = b ∷ but_last (c ∷ s)

-- The loop over whitespace at both ends, on fuel: each round takes a byte.
unfoldable pub strip_spaces : ℕ → Bytes → Option Bytes
unfolding ascii_isspace
strip_spaces fuel [] = none
strip_spaces zero (b ∷ s) = none
strip_spaces (suc fuel) (b ∷ s) =
    let front = strip_spaces fuel s in
    let end = strip_spaces fuel (but_last (b ∷ s)) in
    if ascii_isspace b then front else if ascii_isspace (last_or s b) then end else some (b ∷ s)

abbrev pub non_empty : Bytes → Option Bytes
non_empty [] = none
non_empty (b ∷ s) = some (b ∷ s)

-- Whether the sign is negative, and what stands behind it.
unfoldable pub strip_sign : Bytes → Option (Bool × Bytes)
strip_sign [] = none
strip_sign (b ∷ s) =
    if b == b'-'
    then elim (non_empty s) [ none ↦ none | some t ↦ some (true, t) ]
    else if b == b'+'
    then elim (non_empty s) [ none ↦ none | some t ↦ some (false, t) ]
    else some (false, b ∷ s)

-- Whether the text begins with 0x.
unfoldable pub has_hex_prefix : ℕ → Bytes → Bool
has_hex_prefix base [] = false
has_hex_prefix base (b ∷ []) = false
has_hex_prefix base (b ∷ c ∷ s) = b == b'0' && (base == 16 || base == 0) && bit_or c 0x20 == b'x'

abbrev pub after_two : Bytes → Bytes
after_two (b ∷ c ∷ s) = s
after_two s = []

abbrev pub first_or : Bytes → ℕ → ℕ
first_or [] c = c
first_or (b ∷ s) c = b

unfoldable pub strip_prefix : ℕ → Bytes → Option (ℕ × Bytes)
unfolding has_hex_prefix
strip_prefix base s =
    if has_hex_prefix base s
    then elim (non_empty (after_two s)) [ none ↦ none | some t ↦ some (16, t) ]
    else if base == 0
    then some ((if first_or s 0 == b'0' then 8 else 10), s)
    else some (base, s)

-- `kAsciiToInt[static_cast<int>(*startptr)]`: a negative char is a negative index.
unfoldable pub digit_of : ℕ → Outcome ℕ
unfolding ascii_to_int
digit_of c = if ltb c 128 then load ascii_to_int c else undefined

-- `value * base + digit`, which must fit the type.
unfoldable pub extend : ℕ → ℕ → ℕ → ℕ → Outcome ℕ
extend limit base value digit =
    if ltb (value * base + digit) limit then ok (value * base + digit) else undefined

-- As many digits as are asked for, without a test of the end: the value and the rest of the text.
unfoldable pub digit_steps : ℕ → ℕ → ℕ → ℕ → Bytes → Outcome (Option (ℕ × Bytes))
unfolding digit_of extend
digit_steps limit base zero value s = ok (some (value, s))
digit_steps limit base (suc steps) value [] = undefined
digit_steps limit base (suc steps) value (c ∷ s) = digit_of c >>= λ digit.
    if leb base digit
    then ok none
    else (extend limit base value digit >>= λ value'. digit_steps limit base steps value' s)

-- The rounds of Duff's device after the first: eight digits each, while there are any. On fuel.
unfoldable pub duff_loop : ℕ → ℕ → ℕ → ℕ → Bytes → Outcome (Option ℕ)
unfolding digit_steps
duff_loop limit base fuel value [] = ok (some value)
duff_loop limit base zero value (c ∷ s) = undefined
duff_loop limit base (suc fuel) value (c ∷ s) = digit_steps limit base 8 value (c ∷ s) >>= λ r.
    elim r [ none ↦ ok none | some (value', s') ↦ duff_loop limit base fuel value' s' ]

unfoldable pub parse_short : ℕ → ℕ → Bytes → Outcome (Option ℕ)
unfolding digit_steps duff_loop
parse_short limit base s = digit_steps limit base (length s % 8) 0 s >>= λ r. elim r [
  | none ↦ ok none
  | some (value, s') ↦ duff_loop limit base (length s) value s'
]

-- `*v = sign_multiplier * value` for the final value, which must fit the type.
abbrev pub signed : Bool → ℕ → ℤ
signed false n = pos n
signed true zero = pos zero
signed true (suc n) = negsuc n

unfoldable pub store_value : ℕ → Bool → ℕ → Outcome (Option ℤ)
store_value limit negative value =
    if ltb value limit then ok (some (signed negative value)) else undefined

-- Whether a last digit that may overflow is still accepted.
unfoldable pub is_last_fit : ℕ → ℕ → ℕ → Bool → ℕ → ℕ → Bool
is_last_fit base cutoff remainder negative value digit =
    value == cutoff && leb digit remainder
    || negative
      && (value == cutoff && digit == remainder + 1
          || value - cutoff == 1 && (digit == 0 && remainder + 1 == base))

abbrev pub is_empty_text : Bytes → Bool
is_empty_text [] = true
is_empty_text (b ∷ s) = false

unfoldable pub parse_long : ℕ → ℕ → ℕ → ℕ → Bool → ℕ → Bytes → Outcome (Option ℤ)
unfolding digit_of extend store_value is_last_fit
parse_long limit base cutoff remainder negative value [] = store_value limit negative value
parse_long limit base cutoff remainder negative value (c ∷ s) = digit_of c >>= λ digit.
    if leb base digit
    then ok none
    else if leb cutoff value
    then (if is_empty_text s && is_last_fit base cutoff remainder negative value digit
        then store_value limit negative (value * base + digit)
        else ok none)
    else (extend limit base value digit >>= λ value'.
        parse_long limit base cutoff remainder negative value' s)

unfoldable pub parse_digits : IntType → ℕ → ℕ → Bool → Bytes → Outcome (Option ℤ)
unfolding parse_short parse_long store_value
parse_digits t max_length base negative s =
    if ltb (length s) max_length
    then (parse_short t.limit base s >>= λ r. elim r [
      | none ↦ ok none
      | some value ↦ store_value t.limit negative value
    ])
    else (load t.cutoff base >>= λ cutoff. load t.remainder base >>= λ remainder.
        parse_long t.limit base cutoff remainder negative 0 s)

-- `*startptr <= '0' || *(endptr - 1) < '0' || base == 0`
unfoldable pub needs_strip : ℕ → Bytes → Bool
needs_strip base s =
    leb (first_or s 0) b'0'
    || leb 128 (first_or s 0)
    || (ltb (last_or s 0) b'0' || leb 128 (last_or s 0))
    || base == 0

-- The text without whitespace, sign and prefix: the sign, the base and the digits.
unfoldable pub strip_text : ℕ → Bytes → Option (Bool × ℕ × Bytes)
unfolding strip_spaces strip_sign strip_prefix
strip_text base s = elim (strip_spaces (length s) s) [
  | none ↦ none
  | some t ↦ elim (strip_sign t) [
    | none ↦ none
    | some (negative, u) ↦ elim (strip_prefix base u) [
      | none ↦ none
      | some (base', w) ↦ some (negative, base', w)
    ]
  ]
]

unfoldable pub safe_strto_int_base_internal : IntType → Bytes → ℕ → ℕ → Outcome (Option ℤ)
unfolding parse_digits needs_strip strip_text
safe_strto_int_base_internal t s base max_length =
    if is_empty_text s
    then ok none
    else if needs_strip base s
    then (elim (strip_text base s) [
      | none ↦ ok none
      | some (negative, base', w) ↦ parse_digits t max_length base' negative w
    ])
    else parse_digits t max_length base false s

unfoldable pub safe_strto32_base : Bytes → ℕ → Outcome (Option ℤ)
unfolding safe_strto_int_base_internal int32_type int32_max_length
safe_strto32_base s base = load int32_max_length base >>= λ max_length.
    safe_strto_int_base_internal int32_type s base max_length

unfoldable pub safe_strto64_base : Bytes → ℕ → Outcome (Option ℤ)
unfolding safe_strto_int_base_internal int64_type int64_max_length
safe_strto64_base s base = load int64_max_length base >>= λ max_length.
    safe_strto_int_base_internal int64_type s base max_length

unfoldable pub safe_strto32 : Bytes → Outcome (Option ℤ)
unfolding safe_strto32_base
safe_strto32 s = safe_strto32_base s 10

unfoldable pub safe_strto64 : Bytes → Outcome (Option ℤ)
unfolding safe_strto64_base
safe_strto64 s = safe_strto64_base s 10
