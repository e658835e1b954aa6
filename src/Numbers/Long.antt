-- ===== src/Numbers/Long.antt =====
-- FastUInt64ToBufferLeft of string/numbers.cc.
use mathlib.Core.WellFounded.{Acc}
use native.Mathlib.Decide.{dec_lt}
use cpp_base.Prelude.{
  ℕ, ◌+◌, ◌-◌, ◌*◌, ◌/◌, ◌%◌, ◌^◌, ◌<◌, ◌≤◌, ◌≡◌, ap, ◌∙◌, sym, arith, Bool, true, false, ◌++◌, ltb,
  leb, ◌&&◌, ◌||◌, if◌then◌else◌, append_assoc, append-nil, Outcome, ok, undefined, ◌>>=◌, ◌>>◌,
  check, if_split, dite_split, lt→ltb,
}
use cpp_base.Prelude.{less_wf}
use cpp_base.Bytes.{Bytes}
use cpp_base.Numbers.Print.{
  sub_digits, put_two, put_one, put_nine, uint64_loop, fast_uint64_to_buffer_left,
}
use cpp_base.Numbers.Decimal.{padded, decimal, decimal-padded}
use cpp_base.Numbers.Written.{put_two_lem, put_one_lem, sub_digits_in, joined_digits}
use cpp_base.Numbers.Word.{fast_uint32-decimal, fast_uint32_overflow}

-- Two more digits behind those of `q`.
two_more :
    (j q d n : ℕ) (out : Bytes)
    → d < 100
    → q * 100 + d ≡ n
    → put_two d (out ++ padded j q) ≡ ok (out ++ padded (2 + j) n)
two_more j q d n out h e =
    put_two_lem d (out ++ padded j q) h
    ∙ ap ok (joined_digits out j 2 q d n (omega arith) (omega arith))

one_more :
    (j q d n : ℕ) (out : Bytes)
    → d < 10
    → q * 10 + d ≡ n
    → put_one d (out ++ padded j q) ≡ out ++ padded (1 + j) n
one_more j q d n out h e =
    put_one_lem d (out ++ padded j q) h ∙ joined_digits out j 1 q d n (omega arith) (omega arith)

-- One pair of digits of `put_nine`, with what is done with the rest.
put_pair :
    (j q u r unit n : ℕ) (out : Bytes) (k : ℕ → Bytes → Outcome Bytes)
    → u / unit < 100
    → u / unit * unit + r ≡ u
    → u < 1000000000
    → q * 100 + u / unit ≡ n
    → (put_two (u / unit) (out ++ padded j q) >>= λ t. sub_digits u (u / unit) unit >>= λ v. k v t)
      ≡ k r (out ++ padded (2 + j) n)
put_pair j q u r unit n out k hd hr hu e =
    ap (λ o. o >>= λ t. sub_digits u (u / unit) unit >>= λ v. k v t)
      (two_more j q (u / unit) n out hd e)
    ∙ ap (λ o. o >>= λ v. k v (out ++ padded (2 + j) n))
        (sub_digits_in u (u / unit) unit r (omega arith) hr (omega arith))

-- What is left of `put_nine` after each pair.
abbrev rest_pair : ℕ → (ℕ → Bytes → Outcome Bytes) → ℕ → Bytes → Outcome Bytes
rest_pair unit k v t = put_two (v / unit) t >>= λ t'. sub_digits v (v / unit) unit >>= λ v'. k v' t'

abbrev rest1 : ℕ → Bytes → Outcome Bytes
rest1 = rest_pair 10 (λ v t. ok (put_one v t))

abbrev rest3 : ℕ → Bytes → Outcome Bytes
rest3 = rest_pair 1000 rest1

abbrev rest5 : ℕ → Bytes → Outcome Bytes
rest5 = rest_pair 100000 rest3

nine_pairs :
    (u : ℕ) (out : Bytes)
    → u < 1000000000
    → rest_pair 10000000 rest5 u (out ++ padded 0 0) ≡ ok (out ++ padded 9 u)
nine_pairs u out h =
    put_pair 0 0 u (u % 10000000) 10000000 (u / 10000000) out rest5 (omega arith) (omega arith) h
      (omega arith)
    ∙ put_pair 2 (u / 10000000) (u % 10000000) (u % 100000) 100000 (u / 100000) out rest3
        (omega arith) (omega arith) (omega arith) (omega arith)
    ∙ put_pair 4 (u / 100000) (u % 100000) (u % 1000) 1000 (u / 1000) out rest1 (omega arith)
        (omega arith) (omega arith) (omega arith)
    ∙ put_pair 6 (u / 1000) (u % 1000) (u % 10) 10 (u / 10) out (λ v t. ok (put_one v t))
        (omega arith) (omega arith) (omega arith) (omega arith)
    ∙ ap ok (one_more 8 (u / 10) (u % 10) u out (omega arith) (omega arith))

pub put_nine_lem : (u : ℕ) (out : Bytes) → u < 1000000000 → put_nine u out ≡ ok (out ++ padded 9 u)
unfolding put_nine padded
put_nine_lem u out h =
    ap (λ c. check c >> rest_pair 10000000 rest5 u out) (lt→ltb (u / 10000000) 100 (omega arith))
    ∙ ap (rest_pair 10000000 rest5 u) (sym (append-nil out))
    ∙ nine_pairs u out h

-- Whether the number, or what is left of it in front of nine digits, is one that
-- FastUInt32ToBufferLeft can print.
unfoldable pub is_printable : ℕ → Bool
is_printable u =
    ltb u 2200000000
    || leb (2 ^ 32) u && (ltb (u / 1000000000) 2200000000 || leb (2 ^ 32) (u / 1000000000))

printable_small : (u : ℕ) → is_printable u ≡ true → u < 2 ^ 32 → u < 2200000000
unfolding is_printable
printable_small u e h = ground arith

printable_front :
    (u : ℕ) → is_printable u ≡ true → 2 ^ 32 ≤ u → u < 2 ^ 64 → is_printable (u / 1000000000) ≡ true
unfolding is_printable
printable_front u e h l = ground arith

uint64_loop-decimal :
    (u : ℕ) (w : Acc ◌<◌ u) (out : Bytes)
    → u < 2 ^ 64
    → is_printable u ≡ true
    → uint64_loop u w out ≡ ok (out ++ decimal u)
unfolding uint64_loop
uint64_loop-decimal u (Acc.intro _ smaller) out h e =
    dite_split (dec_lt u (2 ^ 32)) (λ small. fast_uint32-decimal u out (printable_small u e small))
      (λ big.
        ap (λ o. o >>= λ t. put_nine ((u - u / 1000000000 * 1000000000) % 2 ^ 32) t)
          (uint64_loop-decimal (u / 1000000000) (smaller _ (omega arith)) out (omega arith)
            (printable_front u e (omega arith) h))
        ∙ ap (λ r. put_nine r (out ++ decimal (u / 1000000000)))
            {x = (u - u / 1000000000 * 1000000000) % 2 ^ 32} {y = u % 1000000000} (omega arith)
        ∙ put_nine_lem (u % 1000000000) (out ++ decimal (u / 1000000000)) (omega arith)
        ∙ ap ok (
            append_assoc out (decimal (u / 1000000000)) (padded 9 (u % 1000000000))
            ∙ ap (◌++◌ out) (sym (decimal-padded u (omega arith) (omega arith)))))

printable_not_small : (u : ℕ) → is_printable u ≡ false → 2200000000 ≤ u
unfolding is_printable
printable_not_small u e = ground arith

printable_not_front :
    (u : ℕ) → is_printable u ≡ false → 2 ^ 32 ≤ u → is_printable (u / 1000000000) ≡ false
unfolding is_printable
printable_not_front u e h = ground arith

uint64_loop_overflow :
    (u : ℕ) (w : Acc ◌<◌ u) (out : Bytes)
    → u < 2 ^ 64
    → is_printable u ≡ false
    → uint64_loop u w out ≡ undefined
unfolding uint64_loop
uint64_loop_overflow u (Acc.intro _ smaller) out h e =
    dite_split (dec_lt u (2 ^ 32))
      (λ small. fast_uint32_overflow u out (printable_not_small u e) small)
      (λ big.
        ap (λ o. o >>= λ t. put_nine ((u - u / 1000000000 * 1000000000) % 2 ^ 32) t)
          (uint64_loop_overflow (u / 1000000000) (smaller _ (omega arith)) out (omega arith)
            (printable_not_front u e (omega arith))))

-- FastUInt64ToBufferLeft appends the decimal numeral of a number that is printable, and overflows
-- an int on every other number.
pub fast_uint64_lem :
    (u : ℕ) (out : Bytes)
    → u < 2 ^ 64
    → fast_uint64_to_buffer_left u out
      ≡ (if is_printable u then ok (out ++ decimal u) else undefined)
unfolding fast_uint64_to_buffer_left
fast_uint64_lem u out h = sym (
    if_split (is_printable u) (λ e. sym (uint64_loop-decimal u (less_wf u) out h e))
      (λ e. sym (uint64_loop_overflow u (less_wf u) out h e)))
