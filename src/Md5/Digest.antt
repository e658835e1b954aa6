-- ===== src/Md5/Digest.antt =====
-- The digest of hash/md5.cc is that of RFC 1321, however the message is cut into pieces.
use mathlib.Core.Path.{ap₂}
use cpp_base.Prelude.{
  subst, ℕ, ◌+◌, ◌/◌, ◌%◌, ◌^◌, ◌<◌, ◌≤◌, ◌≡◌, refl, arith, ap, ◌∙◌, sym, true, false, List, [],
  ◌∷◌, ◌++◌, length, take, replicate, append_assoc, append-nil, length-take, ok, ◌>>=◌, All,
  if◌then◌else◌,
}
use cpp_base.Bytes.{Bytes, bytes_eq, bytes_eq_iff}
use cpp_base.Prelude.{passes, passes_at, ◌-◌}
use cpp_base.Md5.{
  Md5, init, encode, quad_words, pad_length, padding, md5_update, md5_finalize, update_all,
  as_raw_byte_array,
}
use cpp_base.Md5.Reference.{feed, trailer, md5_reference}
use cpp_base.Md5.Update.{Holds, progress, md5_update-Holds}

-- The pieces one behind the other.
unfoldable pub joined : List Bytes → Bytes
joined [] = []
joined (input ∷ inputs) = input ++ joined inputs

abbrev pub IsPiece : Bytes → Type 0
IsPiece input = length input + 64 < 2 ^ 32

init-Holds : (buffer digest : Bytes) → length buffer ≡ 64 → Holds (init buffer digest) []
unfolding init feed
init-Holds buffer digest h = record {
  still_open = refl;
  sized = h;
  state_is = refl;
  kept = refl;
  low = refl;
  high = refl;
}

update_all-Holds :
    (m : Md5) (message : Bytes) (inputs : List Bytes)
    → Holds m message
    → All IsPiece inputs
    → (m' : Md5) × (update_all m inputs ≡ ok m') × Holds m' (message ++ joined inputs)
unfolding update_all joined
update_all-Holds m message [] h k = (m, refl, subst (Holds m) (sym (append-nil message)) h)
update_all-Holds m message (input ∷ inputs) h (k, ks) =
    let one = md5_update-Holds m message input h k in
    let rest = update_all-Holds one.0 (message ++ input) inputs one.2 ks in
    (
      rest.0,
      ap (λ o. o >>= λ n. update_all n inputs) one.1 ∙ rest.1,
      subst (Holds rest.0) (append_assoc message input (joined inputs)) rest.2,
    )

pad-le : (i : ℕ) → i < 64 → pad_length i ≤ 64
unfolding pad_length
pad-le i h = ground arith

-- What Finalize takes of the table of padding, at each index.
padding_taken : (i : ℕ) → i < 64 → take (pad_length i) padding ≡ 0x80 ∷ replicate ((119 - i) % 64) 0
unfolding pad_length passes bytes_eq
padding_taken i h = (bytes_eq_iff _ _).0 (
    passes_at (λ j. bytes_eq (take (pad_length j) padding) (0x80 ∷ replicate ((119 - j) % 64) 0)) 64
      refl i h)

abbrev finished : Md5 → Md5
finished m = record m {
  digest = encode (quad_words m.state);
  buffer = replicate 64 0;
  count0 = 0;
  count1 = 0;
  finalized = true;
}

abbrev pad_of : Md5 → Bytes
pad_of m = take (pad_length (m.count0 / 8 % 64)) padding

abbrev bits_of : Md5 → Bytes
bits_of m = encode (m.count0 ∷ m.count1 ∷ [])

finalize_runs :
    (m padded whole : Md5)
    → m.finalized ≡ false
    → md5_update m (pad_of m) ≡ ok padded
    → md5_update padded (bits_of m) ≡ ok whole
    → md5_finalize m ≡ ok (finished whole)
unfolding md5_finalize
finalize_runs m padded whole e f g =
    ap
      (λ t.
        if t
        then ok m
        else (md5_update m (pad_of m) >>= λ p. md5_update p (bits_of m) >>= λ w. ok (finished w)))
      e
    ∙ ap (λ o. o >>= λ p. md5_update p (bits_of m) >>= λ w. ok (finished w)) f
    ∙ ap (λ o. o >>= λ w. ok (finished w)) g

finalized :
    (m : Md5) (message : Bytes)
    → Holds m message
    → (m' : Md5) × (md5_finalize m ≡ ok m') × (as_raw_byte_array m' ≡ ok (md5_reference message))
unfolding as_raw_byte_array md5_reference trailer
finalized m message h =
    let n = length message in
    let pad = pad_of m in
    let bits = bits_of m in
    let index : m.count0 / 8 % 64 ≡ n % 64 = omega (arith, h.low) in
    let padded = md5_update-Holds m message pad h (
      omega (
        arith,
        length-take (pad_length (m.count0 / 8 % 64)) padding
            (pad-le (m.count0 / 8 % 64) (omega arith)),
        pad-le (m.count0 / 8 % 64) (omega arith),
      )) in
    let whole = md5_update-Holds padded.0 (message ++ pad) bits padded.2 (omega arith) in
    let tail : pad ++ bits ≡ trailer n =
      ap₂ ◌++◌
        (padding_taken (m.count0 / 8 % 64) (omega arith)
          ∙ ap (λ i. 0x80 ∷ replicate ((119 - i) % 64) 0) index)
        (ap₂ (λ x y. encode (x ∷ y ∷ [])) h.low h.high) in
    (
      finished whole.0,
      finalize_runs m padded.0 whole.0 h.still_open padded.1 whole.1,
      ap (λ q. ok (encode (quad_words q)))
          ((whole.2).state_is
            ∙ ap (λ t. (progress t).0) (append_assoc message pad bits ∙ ap (◌++◌ message) tail)),
    )

-- In whatever pieces of fewer than 2 ^ 32 - 64 bytes a message is given to Update, every call and
-- Finalize succeed, and the raw digest is the reference's for the whole message, whatever the memory
-- of the object held before.
pub md5-refines :
    (buffer digest : Bytes) (inputs : List Bytes)
    → length buffer ≡ 64
    → All IsPiece inputs
    → (m : Md5) × (m' : Md5) × (update_all (init buffer digest) inputs ≡ ok m)
      × (md5_finalize m ≡ ok m')
      × (as_raw_byte_array m' ≡ ok (md5_reference (joined inputs)))
md5-refines buffer digest inputs h k =
    let taken = update_all-Holds (init buffer digest) [] inputs (init-Holds buffer digest h) k in
    let done = finalized taken.0 (joined inputs) taken.2 in
    (taken.0, done.0, taken.1, done.1, done.2)
