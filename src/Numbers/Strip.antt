-- ===== src/Numbers/Strip.antt =====
-- Whitespace, sign and prefix in safe_strtoIntType_base_internal (string/numbers.cc).
use cpp_base.Prelude.{
  ℕ, suc, ◌<◌, ◌≤◌, ◌≡◌, refl, ap, ◌∙◌, sym, arith, Bool, true, false, not, Option, none, some, [],
  ◌∷◌, length, ltb, if◌then◌else◌, Outcome, ok, ℤ, if_split, passes, passes_at,
}
use cpp_base.Bytes.{Bytes}
use cpp_base.AsciiCtype.{ascii_isspace}
use cpp_base.Numbers.Parse.{
  IntType, last_or, strip_spaces, strip_sign, has_hex_prefix, strip_prefix, strip_text, needs_strip,
  is_empty_text, parse_digits, safe_strto_int_base_internal,
}

pub not_space : (c : ℕ) → 33 ≤ c → c < 128 → ascii_isspace c ≡ false
unfolding ascii_isspace passes
not_space c lo hi =
    ground (arith, passes_at (λ k. if ltb k 33 then true else not (ascii_isspace k)) 128 refl c hi)

-- The text that is parsed: the code without its shortcut for texts that begin and end with a digit.
unfoldable pub parse_stripped : IntType → ℕ → ℕ → Bytes → Outcome (Option ℤ)
unfolding strip_text parse_digits
parse_stripped t base max_length s = elim (strip_text base s) [
  | none ↦ ok none
  | some (negative, base', w) ↦ parse_digits t max_length base' negative w
]

pub strip_spaces_none :
    (fuel b : ℕ) (s : Bytes)
    → ascii_isspace b ≡ false
    → ascii_isspace (last_or s b) ≡ false
    → strip_spaces (suc fuel) (b ∷ s) ≡ some (b ∷ s)
unfolding strip_spaces
strip_spaces_none fuel b s f g = rw (f, g) refl

strip_sign_none : (b : ℕ) (s : Bytes) → 49 ≤ b → strip_sign (b ∷ s) ≡ some (false, b ∷ s)
unfolding strip_sign
strip_sign_none b s h = ground arith

has_hex_prefix_none : (base b : ℕ) (s : Bytes) → 49 ≤ b → has_hex_prefix base (b ∷ s) ≡ false
unfolding has_hex_prefix
has_hex_prefix_none base b [] h = refl
has_hex_prefix_none base b (c ∷ s) h = ground arith

pub strip_prefix_none :
    (base : ℕ) (s : Bytes)
    → has_hex_prefix base s ≡ false
    → 1 ≤ base
    → strip_prefix base s ≡ some (base, s)
unfolding strip_prefix
strip_prefix_none base s f h = ground (arith, f)

-- The three parts of `strip_text`.
pub strip_text_steps :
    (base : ℕ) (s t u w : Bytes) (negative : Bool) (base' : ℕ)
    → strip_spaces (length s) s ≡ some t
    → strip_sign t ≡ some (negative, u)
    → strip_prefix base u ≡ some (base', w)
    → strip_text base s ≡ some (negative, base', w)
unfolding strip_text
strip_text_steps base s t u w negative base' e f g =
    ap
      (λ o. elim o [
        | none ↦ none
        | some t ↦ elim (strip_sign t) [
          | none ↦ none
          | some (negative, u) ↦ elim (strip_prefix base u) [
            | none ↦ none
            | some (base', w) ↦ some (negative, base', w)
          ]
        ]
      ])
      e
    ∙ ap
        (λ o. elim o [
          | none ↦ none
          | some (negative, u) ↦ elim (strip_prefix base u) [
            | none ↦ none
            | some (base', w) ↦ some (negative, base', w)
          ]
        ])
        f
    ∙ ap (λ o. elim o [ none ↦ none | some (base', w) ↦ some (negative, base', w) ]) g

strip_text_none :
    (base : ℕ) (s : Bytes)
    → is_empty_text s ≡ false
    → needs_strip base s ≡ false
    → strip_text base s ≡ some (false, base, s)
unfolding needs_strip
strip_text_none base [] e h = absurd (cc e)
strip_text_none base (b ∷ s) e h =
    let first : 49 ≤ b = ground (arith, h) in
    let small : b < 128 = ground (arith, h) in
    let end : 48 ≤ last_or s b = ground (arith, h) in
    let small_end : last_or s b < 128 = ground (arith, h) in
    let based : 1 ≤ base = ground (arith, h) in
    strip_text_steps base (b ∷ s) (b ∷ s) (b ∷ s) (b ∷ s) false base
      (strip_spaces_none (length s) b s (not_space b (omega arith) small)
        (not_space (last_or s b) (omega arith) small_end))
      (strip_sign_none b s first)
      (strip_prefix_none base (b ∷ s) (has_hex_prefix_none base b s first) based)

-- The shortcut for texts that begin and end with digits does not change the result, for any type,
-- base and text.
pub safe_strto_int-parse_stripped :
    (t : IntType) (s : Bytes) (base max_length : ℕ)
    → safe_strto_int_base_internal t s base max_length ≡ parse_stripped t base max_length s
unfolding safe_strto_int_base_internal parse_stripped
safe_strto_int-parse_stripped t [] base max_length = unfold strip_text strip_spaces in refl
safe_strto_int-parse_stripped t (b ∷ s) base max_length =
    if_split (needs_strip base (b ∷ s)) (λ _. refl)
      (λ f. sym (
        ap
          (λ o. elim o [
            | none ↦ ok none
            | some (negative, base', w) ↦ parse_digits t max_length base' negative w
          ])
          (strip_text_none base (b ∷ s) refl f)))
