-- ===== src/Md5/Update.antt =====
-- Update of hash/md5.cc keeps what MD5 has of a message one byte at a time.
use cpp_base.Prelude.{
  leb→le, ℕ, ◌+◌, ◌-◌, ◌*◌, ◌/◌, ◌%◌, ◌^◌, ◌<◌, ◌≤◌, ◌≡◌, refl, arith, ap, ◌∙◌, sym, true, false,
  [], ◌++◌, length, take, drop, length-append, append-take-drop, length-take, length-drop, take_all,
  ok, ltb, leb, if◌then◌else◌, Bool-cases, inl, inr,
}
use cpp_base.Bytes.{Bytes}
use cpp_base.Md5.{Md5, Quad, transform, memcpy, add_count_bits, update_open, md5_update, init_state}
use cpp_base.Md5.Blocks.{take-memcpy, length-memcpy, blocks_fed}
use cpp_base.Md5.Reference.{feed, feed-append, feed_short, feed_block, length-feed}

abbrev pub progress : Bytes → Quad × Bytes
progress message = feed (init_state, []) message

-- What the object has taken is the message.
pub record Holds (m : Md5) (message : Bytes) : Type 0 where
  pub still_open : m.finalized ≡ false
  pub sized : length m.buffer ≡ 64
  pub state_is : m.state ≡ (progress message).0
  pub kept : take (length message % 64) m.buffer ≡ (progress message).1
  pub low : m.count0 ≡ length message * 8 % 2 ^ 32
  pub high : m.count1 ≡ length message * 8 / 2 ^ 32 % 2 ^ 32

count_low : (l n : ℕ) → (l * 8 % 2 ^ 32 + n * 2 ^ 3 % 2 ^ 32) % 2 ^ 32 ≡ (l + n) * 8 % 2 ^ 32
count_low l n = omega arith

count_high :
    (l n : ℕ)
    → ((if ltb ((l * 8 % 2 ^ 32 + n * 2 ^ 3 % 2 ^ 32) % 2 ^ 32) (n * 2 ^ 3 % 2 ^ 32)
            then (l * 8 / 2 ^ 32 % 2 ^ 32 + 1) % 2 ^ 32
            else l * 8 / 2 ^ 32 % 2 ^ 32)
          + n / 2 ^ 29)
        % 2 ^ 32
      ≡ (l + n) * 8 / 2 ^ 32 % 2 ^ 32
count_high l n = ground arith

-- The count after more bytes.
counted :
    (m : Md5) (message : Bytes) (n : ℕ)
    → Holds m message
    → ((add_count_bits m n).count0 ≡ (length message + n) * 8 % 2 ^ 32)
      × ((add_count_bits m n).count1 ≡ (length message + n) * 8 / 2 ^ 32 % 2 ^ 32)
unfolding add_count_bits
counted m message n h =
    (rw h.low (count_low (length message) n), rw (h.low, h.high) (count_high (length message) n))

-- The buffer with the first bytes of the input.
filled_is :
    (m : Md5) (message input : Bytes) (index : ℕ)
    → Holds m message
    → index ≡ length message % 64
    → index + length input ≤ 64
    → take (index + length input) (memcpy m.buffer index input) ≡ (progress message).1 ++ input
filled_is m message input index h e k =
    take-memcpy m.buffer input index (omega (arith, h.sized))
    ∙ ap (λ r. r ++ input) (ap (λ i. take i m.buffer) e ∙ h.kept)

kept-length : (message : Bytes) → length (progress message).1 ≡ length message % 64
kept-length message = length-feed init_state [] message (omega arith) ∙ omega arith

not_leb : (a b : ℕ) → leb a b ≡ false → b < a
not_leb a b h = ground arith

module _ (m : Md5) (message input : Bytes) (h : Holds m message)
    (b : length input + 64 < 2 ^ 32) where
  index_is : m.count0 / 8 % 64 ≡ length message % 64
  index_is = omega (arith, h.low)

  -- Where the input does not fill the block.
  update_short :
      length message % 64 + length input < 64
      → (m' : Md5) × (update_open m input ≡ ok m') × Holds m' (message ++ input)
  unfolding update_open add_count_bits
  update_short s =
      let index = m.count0 / 8 % 64 in
      let n = length input in
      let test : leb (64 - index) n ≡ false = ground (arith, index_is) in
      let bits = counted m message n h in
      let fed =
        feed-append (init_state, []) message input
        ∙ feed_short (progress message).0 (progress message).1 input
            (omega (arith, kept-length message)) in
      let total = length-append message input in
      (
        record (add_count_bits m n) { buffer = memcpy m.buffer index input },
        rw test refl,
        record {
          still_open = h.still_open;
          sized = length-memcpy m.buffer input index (omega (arith, h.sized, index_is)) ∙ h.sized;
          state_is = h.state_is ∙ sym (ap (λ (p : Quad × Bytes). p.0) fed);
          kept =
              ap (λ k. take k (memcpy m.buffer index input)) {x = length (message ++ input) % 64}
                {y = index + n} (omega (arith, index_is, total))
              ∙ filled_is m message input index h index_is (omega (arith, index_is))
              ∙ sym (ap (λ (p : Quad × Bytes). p.1) fed);
          low = bits.0 ∙ ap (λ k. k * 8 % 2 ^ 32) (sym total);
          high = bits.1 ∙ ap (λ k. k * 8 / 2 ^ 32 % 2 ^ 32) (sym total);
        },
      )

  -- Where it fills the block.
  update_long :
      64 ≤ length message % 64 + length input
      → (m' : Md5) × (update_open m input ≡ ok m') × Holds m' (message ++ input)
  unfolding update_open add_count_bits
  update_long s =
      let index = m.count0 / 8 % 64 in
      let first = 64 - index in
      let head = take first input in
      let filled = memcpy m.buffer index head in
      let heads : length head ≡ first = length-take first input (omega (arith, index_is)) in
      let exact : index + length head ≡ 64 = omega (arith, heads, index_is) in
      let test : leb first (length input) ≡ true = ground (arith, index_is) in
      let whole = length-memcpy m.buffer head index (omega (arith, h.sized, exact)) ∙ h.sized in
      let block : filled ≡ (progress message).1 ++ head =
        sym (take_all filled (index + length head) (whole ∙ sym exact))
        ∙ filled_is m message head index h index_is (omega (arith, exact)) in
      let loop =
        blocks_fed (length input) input first (transform m.state filled) b (omega (arith, index_is))
          (omega (arith, index_is)) in
      let rest = drop loop.0 input in
      let bits = counted m message (length input) h in
      let total = length-append message input in
      let fed : progress (message ++ input) ≡ (loop.1, rest) =
        feed-append (init_state, []) message input
        ∙ ap (feed (progress message)) (sym (append-take-drop first input))
        ∙ feed-append (progress message) head (drop first input)
        ∙ ap (λ p. feed p (drop first input))
            (feed_block (progress message).0 (progress message).1 head
                (omega (arith, kept-length message))
                (omega (arith, kept-length message, exact, index_is))
              ∙ ap (λ q. (transform q ((progress message).1 ++ head), [])) (sym h.state_is)
              ∙ ap (λ t. (transform m.state t, [])) (sym block))
        ∙ loop.3 in
      let few = length-drop loop.0 input in
      let resized : length (memcpy filled 0 rest) ≡ 64 =
        length-memcpy filled rest 0 (omega (arith, few, whole, loop.4, loop.5)) ∙ whole in
      (
        record (add_count_bits m (length input)) { state = loop.1; buffer = memcpy filled 0 rest },
        rw (test, loop.2) refl,
        record {
          still_open = h.still_open;
          sized = resized;
          state_is = sym (ap (λ (p : Quad × Bytes). p.0) fed);
          kept =
              ap (λ k. take k (memcpy filled 0 rest)) {x = length (message ++ input) % 64}
                {y = 0 + length rest}
                (omega (
                  arith,
                  kept-length (message ++ input),
                  ap (λ (p : Quad × Bytes). length p.1) fed,
                ))
              ∙ take-memcpy filled rest 0 (omega (arith, few, whole, loop.4, loop.5))
              ∙ sym (ap (λ (p : Quad × Bytes). p.1) fed);
          low = bits.0 ∙ ap (λ k. k * 8 % 2 ^ 32) (sym total);
          high = bits.1 ∙ ap (λ k. k * 8 / 2 ^ 32 % 2 ^ 32) (sym total);
        },
      )

  -- Update of an open object succeeds for an input that is shorter than 2 ^ 32 - 64 bytes, and the
  -- object then holds the message with the input behind it.
  pub md5_update-Holds : (m' : Md5) × (md5_update m input ≡ ok m') × Holds m' (message ++ input)
  unfolding md5_update
  md5_update-Holds =
      let open_now = ap (λ t. if t then ok m else update_open m input) h.still_open in
      elim (Bool-cases (leb 64 (length message % 64 + length input))) [
        | inl e ↦ let r = update_long (leb→le 64 _ e) in (r.0, open_now ∙ r.1, r.2)
        | inr e ↦ let r = update_short (not_leb 64 _ e) in (r.0, open_now ∙ r.1, r.2)
      ]
