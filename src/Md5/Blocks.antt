-- ===== src/Md5/Blocks.antt =====
-- The buffer and the loop over whole blocks of Update (hash/md5.cc).
use cpp_base.Prelude.{
  ℕ, zero, suc, ◌+◌, ◌%◌, ◌^◌, ◌<◌, ◌≤◌, ◌≡◌, refl, arith, ap, ◌∙◌, sym, true, false, [], ◌++◌,
  length, take, drop, length-append, append_assoc, append-take-drop, length-take, length-drop,
  drop-drop, take-append, ok, undefined, leb, Bool-cases, inl, inr,
}
use cpp_base.Bytes.{Bytes}
use cpp_base.Md5.{Quad, transform, transform_blocks, memcpy, word_limit}
use cpp_base.Md5.Reference.{feed, feed-append, feed_short, feed_block}

pub take-memcpy :
    (buffer bytes : Bytes) (index : ℕ)
    → index + length bytes ≤ length buffer
    → take (index + length bytes) (memcpy buffer index bytes) ≡ take index buffer ++ bytes
unfolding memcpy
take-memcpy buffer bytes index h =
    ap (take (index + length bytes))
      (sym (append_assoc (take index buffer) bytes (drop (index + length bytes) buffer)))
    ∙ take-append (take index buffer ++ bytes) _ (index + length bytes) (
        omega
          (arith, length-append (take index buffer) bytes, length-take index buffer (omega arith)))

pub length-memcpy :
    (buffer bytes : Bytes) (index : ℕ)
    → index + length bytes ≤ length buffer
    → length (memcpy buffer index bytes) ≡ length buffer
unfolding memcpy
length-memcpy buffer bytes index h = omega (
  arith,
  length-append (take index buffer) (bytes ++ drop (index + length bytes) buffer),
  length-append bytes (drop (index + length bytes) buffer),
  length-take index buffer (omega arith),
  length-drop (index + length bytes) buffer,
)

feed-take :
    (q : Quad) (input : Bytes) (i : ℕ)
    → i + 64 ≤ length input
    → feed (q, []) (drop i input)
      ≡ feed (transform q (take 64 (drop i input)), []) (drop (i + 64) input)
feed-take q input i h =
    ap (feed (q, [])) (sym (append-take-drop 64 (drop i input)))
    ∙ feed-append (q, []) (take 64 (drop i input)) (drop 64 (drop i input))
    ∙ ap (λ p. feed p (drop 64 (drop i input)))
        (feed_block q [] (take 64 (drop i input)) (omega arith)
          (omega (arith, length-take 64 (drop i input) (omega (arith, length-drop i input)))))
    ∙ ap (feed (transform q (take 64 (drop i input)), [])) (drop-drop 64 i (i + 64) input refl)

blocks_more :
    (fuel : ℕ) (input : Bytes) (i : ℕ) (q : Quad)
    → (i + 64) % word_limit ≡ i + 64
    → leb (i + 64) (length input) ≡ true
    → transform_blocks (suc fuel) input i q
      ≡ transform_blocks fuel input (i + 64) (transform q (take 64 (drop i input)))
unfolding transform_blocks
blocks_more fuel input i q w e =
    ap
      (λ k. elim (leb k (length input)) [
        | false ↦ ok (i, q)
        | true ↦ elim (leb (i + 64) (length input)) [
          | false ↦ undefined
          | true ↦ transform_blocks fuel input k (transform q (take 64 (drop i input)))
        ]
      ])
      w
    ∙ ap
        (λ t. elim t [
          | false ↦ ok (i, q)
          | true ↦ elim (leb (i + 64) (length input)) [
            | false ↦ undefined
            | true ↦ transform_blocks fuel input (i + 64) (transform q (take 64 (drop i input)))
          ]
        ])
        e
    ∙ ap
        (λ t. elim t [
          | false ↦ undefined
          | true ↦ transform_blocks fuel input (i + 64) (transform q (take 64 (drop i input)))
        ])
        e

blocks_done :
    (fuel : ℕ) (input : Bytes) (i : ℕ) (q : Quad)
    → (i + 64) % word_limit ≡ i + 64
    → leb (i + 64) (length input) ≡ false
    → transform_blocks (suc fuel) input i q ≡ ok (i, q)
unfolding transform_blocks
blocks_done fuel input i q w e =
    let f : leb ((i + 64) % word_limit) (length input) ≡ false =
      ap (λ k. leb k (length input)) w ∙ e in
    rw (f, transform_blocks) refl

-- The loop over whole blocks feeds what is behind the place and keeps what fills no block.
pub blocks_fed :
    (fuel : ℕ) (input : Bytes) (i : ℕ) (q : Quad)
    → length input + 64 < 2 ^ 32
    → i ≤ length input
    → length input < i + fuel
    → (j : ℕ) × (q' : Quad) × (transform_blocks fuel input i q ≡ ok (j, q'))
      × (feed (q, []) (drop i input) ≡ (q', drop j input))
      × (j ≤ length input)
      × (length input < j + 64)
blocks_fed zero input i q h k l = absurd (omega arith)
blocks_fed (suc fuel) input i q h k l =
    let whole : (i + 64) % word_limit ≡ i + 64 = omega arith in
    elim (Bool-cases (leb (i + 64) (length input))) [
      | inl e ↦
          let inside : i + 64 ≤ length input = ground arith in
          let q1 = transform q (take 64 (drop i input)) in
          let later = blocks_fed fuel input (i + 64) q1 h inside (omega arith) in
          (
            later.0,
            later.1,
            blocks_more fuel input i q whole e ∙ later.2,
            feed-take q input i inside ∙ later.3,
            later.4,
            later.5,
          )
      | inr e ↦
          let outside : length input < i + 64 = ground arith in
          (
            i,
            q,
            blocks_done fuel input i q whole e,
            feed_short q [] (drop i input) (omega (arith, length-drop i input)),
            k,
            outside,
          )
    ]
