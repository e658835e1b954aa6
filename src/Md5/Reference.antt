-- ===== src/Md5/Reference.antt =====
-- MD5 one byte at a time, as RFC 1321 defines it: the message, a byte 0x80, zeros up to 56 modulo 64,
-- and the length in bits.
use cpp_base.Prelude.{
  ℕ, ◌+◌, ◌-◌, ◌*◌, ◌/◌, ◌%◌, ◌^◌, ◌<◌, ◌≡◌, refl, arith, ap, ◌∙◌, sym, true, false, [], ◌∷◌, ◌++◌,
  length, replicate, length-append, append_assoc, append-nil, ◌==◌, if◌then◌else◌, Bool-cases, inl,
  inr,
}
use cpp_base.Bytes.{Bytes}
use cpp_base.Md5.{Quad, transform, init_state, encode, quad_words}

-- The state, and the bytes that do not fill a block.
abbrev pub Progress : Type 0
Progress = Quad × Bytes

unfoldable pub feed_byte : Progress → ℕ → Progress
feed_byte (q, r) b =
    if length r == 63 then (transform q (r ++ (b ∷ [])), []) else (q, r ++ (b ∷ []))

unfoldable pub feed : Progress → Bytes → Progress
feed p [] = p
feed p (b ∷ bytes) = feed (feed_byte p b) bytes

-- The bytes behind a message: a byte 0x80, the least number of zeros after which 8 bytes are left of
-- a block, and the length in bits, which is modulo 2 ^ 64.
unfoldable pub trailer : ℕ → Bytes
unfolding encode
trailer n =
    0x80 ∷ replicate ((119 - n % 64) % 64) 0
    ++ encode ((n * 8 % 2 ^ 32) ∷ (n * 8 / 2 ^ 32 % 2 ^ 32) ∷ [])

unfoldable pub md5_reference : Bytes → Bytes
unfolding feed trailer init_state quad_words encode
md5_reference message =
    encode (quad_words (feed (init_state, []) (message ++ trailer (length message))).0)

pub feed-append : (p : Progress) (s t : Bytes) → feed p (s ++ t) ≡ feed (feed p s) t
unfolding feed
feed-append p [] t = refl
feed-append p (b ∷ s) t = feed-append (feed_byte p b) s t

byte_kept : (q : Quad) (r : Bytes) (b : ℕ) → length r < 63 → feed_byte (q, r) b ≡ (q, r ++ (b ∷ []))
unfolding feed_byte
byte_kept q r b h = let e : (length r == 63) ≡ false = ground arith in rw e refl

byte_last :
    (q : Quad) (r : Bytes) (b : ℕ)
    → length r ≡ 63
    → feed_byte (q, r) b ≡ (transform q (r ++ (b ∷ [])), [])
unfolding feed_byte
byte_last q r b h = let e : (length r == 63) ≡ true = ground arith in rw e refl

no_bytes : (s : Bytes) → length s ≡ 0 → s ≡ []
no_bytes [] h = refl
no_bytes (b ∷ s) h = absurd (omega arith)

-- Fewer bytes than fill the block are kept.
pub feed_short : (q : Quad) (r s : Bytes) → length r + length s < 64 → feed (q, r) s ≡ (q, r ++ s)
unfolding feed
feed_short q r [] h = ap (λ t. (q, t)) (sym (append-nil r))
feed_short q r (b ∷ s) h =
    ap (λ p. feed p s) (byte_kept q r b (omega arith))
    ∙ feed_short q (r ++ (b ∷ [])) s (omega (arith, length-append r (b ∷ [])))
    ∙ ap (λ t. (q, t)) (append_assoc r (b ∷ []) s)

-- The bytes that fill the block are transformed with it.
pub feed_block :
    (q : Quad) (r s : Bytes)
    → length r < 64
    → length r + length s ≡ 64
    → feed (q, r) s ≡ (transform q (r ++ s), [])
unfolding feed
feed_block q r [] h e = absurd (omega arith)
feed_block q r (b ∷ s) h e = elim (Bool-cases (length r == 63)) [
  | inl f ↦
      let none_left = no_bytes s (ground (arith, e, f)) in
      ap (λ p. feed p s) (byte_last q r b (ground arith))
      ∙ ap (feed (transform q (r ++ (b ∷ [])), [])) none_left
      ∙ ap (λ t. (transform q (r ++ (b ∷ t)), [])) (sym none_left)
  | inr f ↦
      let short : length r < 63 = ground arith in
      ap (λ p. feed p s) (byte_kept q r b short)
      ∙ feed_block q (r ++ (b ∷ [])) s (omega (arith, length-append r (b ∷ [])))
          (omega (arith, length-append r (b ∷ [])))
      ∙ ap (λ t. (transform q t, [])) (append_assoc r (b ∷ []) s)
]

-- How many bytes are kept.
pub length-feed :
    (q : Quad) (r s : Bytes) → length r < 64 → length (feed (q, r) s).1 ≡ (length r + length s) % 64
unfolding feed
length-feed q r [] h = omega arith
length-feed q r (b ∷ s) h = elim (Bool-cases (length r == 63)) [
  | inl f ↦
      let full : length r ≡ 63 = ground arith in
      ap (λ p. length (feed p s).1) (byte_last q r b full)
      ∙ length-feed (transform q (r ++ (b ∷ []))) [] s (omega arith)
      ∙ omega arith
  | inr f ↦
      let short : length r < 63 = ground arith in
      ap (λ p. length (feed p s).1) (byte_kept q r b short)
      ∙ length-feed q (r ++ (b ∷ [])) s (omega (arith, length-append r (b ∷ [])))
      ∙ omega (arith, length-append r (b ∷ []))
]
