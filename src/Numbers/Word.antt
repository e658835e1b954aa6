-- ===== src/Numbers/Word.antt =====
-- What FastUInt32ToBufferLeft of string/numbers.cc writes: the decimal numeral, wherever the product
-- of the first two digits fits an `int`.
use cpp_base.Prelude.{
  ℕ, suc, ◌*◌, ◌/◌, ◌^◌, ◌<◌, ◌≤◌, ◌≡◌, refl, ap, ◌∙◌, sym, arith, true, false, ◌++◌, ltb, leb, ok,
  undefined, ◌>>=◌, if_split, leb→le, ltb→lt, inl, inr, ◌⊎◌, Outcome,
}
use cpp_base.Bytes.{Bytes}
use cpp_base.Numbers.Print.{
  sub_digits, put_two, put_one, lt100, sublt100, lt10_000, sublt10_000, lt1_000_000, sublt1_000_000,
  lt100_000_000, sublt100_000_000, fast_uint32_to_buffer_left,
}
use cpp_base.Numbers.Decimal.{padded, decimal, width_at}
use cpp_base.Numbers.Written.{
  put_two_lem, put_one_lem, lt100_lem, lt10_000_lem, lt1_000_000_lem, lt100_000_000_lem,
  sublt100_lem, sublt10_000_lem, sublt1_000_000_lem, sublt100_000_000_lem,
}

decimal_at :
    (k u : ℕ) (out : Bytes) {o : Outcome Bytes}
    → k < 20
    → (k ≡ 0) ⊎ (10 ^ k ≤ u)
    → u < 10 ^ suc k
    → o ≡ ok (out ++ padded (suc k) u)
    → o ≡ ok (out ++ decimal u)
unfolding decimal
decimal_at k u out h lo hi e = e ∙ ap (λ w. ok (out ++ padded w u)) (sym (width_at 20 k u h lo hi))

-- The branches in the order of the code.
sublt100_one :
    (u : ℕ) (out : Bytes)
    → 100 ≤ u
    → u < 1000
    → sublt100 (u / 100) u (put_one (u / 100) out) ≡ ok (out ++ decimal u)
sublt100_one u out lo hi = decimal_at 2 u out (omega arith) (inr (omega arith)) (omega arith) (
    ap (sublt100 (u / 100) u) (put_one_lem (u / 100) out (omega arith))
    ∙ sublt100_lem 1 u out (omega arith))

lt100_two : (u : ℕ) (out : Bytes) → 10 ≤ u → u < 100 → lt100 u out ≡ ok (out ++ decimal u)
lt100_two u out lo hi =
    decimal_at 1 u out (omega arith) (inr (omega arith)) (omega arith) (lt100_lem u out hi)

sublt10_000_one :
    (u : ℕ) (out : Bytes)
    → 10000 ≤ u
    → u < 100000
    → sublt10_000 (u / 10000) u (put_one (u / 10000) out) ≡ ok (out ++ decimal u)
sublt10_000_one u out lo hi = decimal_at 4 u out (omega arith) (inr (omega arith)) (omega arith) (
    ap (sublt10_000 (u / 10000) u) (put_one_lem (u / 10000) out (omega arith))
    ∙ sublt10_000_lem 1 u out (omega arith))

lt10_000_two : (u : ℕ) (out : Bytes) → 1000 ≤ u → u < 10000 → lt10_000 u out ≡ ok (out ++ decimal u)
lt10_000_two u out lo hi =
    decimal_at 3 u out (omega arith) (inr (omega arith)) (omega arith) (lt10_000_lem u out hi)

sublt1_000_000_one :
    (u : ℕ) (out : Bytes)
    → 1000000 ≤ u
    → u < 10000000
    → sublt1_000_000 (u / 1000000) u (put_one (u / 1000000) out) ≡ ok (out ++ decimal u)
sublt1_000_000_one u out lo hi =
    decimal_at 6 u out (omega arith) (inr (omega arith)) (omega arith) (
      ap (sublt1_000_000 (u / 1000000) u) (put_one_lem (u / 1000000) out (omega arith))
      ∙ sublt1_000_000_lem 1 u out (omega arith))

lt1_000_000_two :
    (u : ℕ) (out : Bytes) → 100000 ≤ u → u < 1000000 → lt1_000_000 u out ≡ ok (out ++ decimal u)
lt1_000_000_two u out lo hi =
    decimal_at 5 u out (omega arith) (inr (omega arith)) (omega arith) (lt1_000_000_lem u out hi)

sublt100_000_000_one :
    (u : ℕ) (out : Bytes)
    → 100000000 ≤ u
    → u < 1000000000
    → sublt100_000_000 (u / 100000000) u (put_one (u / 100000000) out) ≡ ok (out ++ decimal u)
sublt100_000_000_one u out lo hi =
    decimal_at 8 u out (omega arith) (inr (omega arith)) (omega arith) (
      ap (sublt100_000_000 (u / 100000000) u) (put_one_lem (u / 100000000) out (omega arith))
      ∙ sublt100_000_000_lem 1 u out (omega arith))

lt100_000_000_two :
    (u : ℕ) (out : Bytes)
    → 10000000 ≤ u
    → u < 100000000
    → lt100_000_000 u out ≡ ok (out ++ decimal u)
lt100_000_000_two u out lo hi =
    decimal_at 7 u out (omega arith) (inr (omega arith)) (omega arith) (lt100_000_000_lem u out hi)

ten_digits :
    (u : ℕ) (out : Bytes)
    → 1000000000 ≤ u
    → u < 2200000000
    → (put_two (u / 100000000) out >>= λ t. sublt100_000_000 (u / 100000000) u t)
      ≡ ok (out ++ decimal u)
ten_digits u out lo hi = decimal_at 9 u out (omega arith) (inr (omega arith)) (omega arith) (
    ap (λ o. o >>= λ t. sublt100_000_000 (u / 100000000) u t)
      (put_two_lem (u / 100000000) out (omega arith))
    ∙ sublt100_000_000_lem 2 u out hi)

one_digit : (u : ℕ) (out : Bytes) → u < 10 → ok (put_one u out) ≡ ok (out ++ decimal u)
one_digit u out h =
    decimal_at 0 u out (omega arith) (inl refl) (omega arith) (ap ok (put_one_lem u out h))

-- The text is the decimal numeral.
pub fast_uint32-decimal :
    (u : ℕ) (out : Bytes)
    → u < 2200000000
    → fast_uint32_to_buffer_left u out ≡ ok (out ++ decimal u)
unfolding fast_uint32_to_buffer_left
fast_uint32-decimal u out h =
    if_split (leb 1000000000 u) (λ f. ten_digits u out (leb→le _ _ f) h)
      (λ f0.
        if_split (ltb u 100)
          (λ f.
            if_split (leb 10 u) (λ g. lt100_two u out (leb→le _ _ g) (ltb→lt _ _ f))
              (λ g. one_digit u out (ground arith)))
          (λ f1.
            if_split (ltb u 10000)
              (λ f.
                if_split (leb 1000 u) (λ g. lt10_000_two u out (leb→le _ _ g) (ltb→lt _ _ f))
                  (λ g. sublt100_one u out (ground arith) (ground arith)))
              (λ f2.
                if_split (ltb u 1000000)
                  (λ f.
                    if_split (leb 100000 u)
                      (λ g. lt1_000_000_two u out (leb→le _ _ g) (ltb→lt _ _ f))
                      (λ g. sublt10_000_one u out (ground arith) (ground arith)))
                  (λ f3.
                    if_split (ltb u 100000000)
                      (λ f.
                        if_split (leb 10000000 u)
                          (λ g. lt100_000_000_two u out (leb→le _ _ g) (ltb→lt _ _ f))
                          (λ g. sublt1_000_000_one u out (ground arith) (ground arith)))
                      (λ f4. sublt100_000_000_one u out (ground arith) (ground arith))))))

-- Past that bound the product of the first two digits is 2200000000 at least, and overflows.
pub fast_uint32_overflow :
    (u : ℕ) (out : Bytes)
    → 2200000000 ≤ u
    → u < 2 ^ 32
    → fast_uint32_to_buffer_left u out ≡ undefined
unfolding fast_uint32_to_buffer_left sublt100_000_000 sub_digits
fast_uint32_overflow u out lo hi =
    let e = put_two_lem (u / 100000000) out (omega arith) in
    let t : leb 1000000000 u ≡ true = ground arith in
    let k : ltb (u / 100000000 * 100000000) (2 ^ 31) ≡ false = ground arith in rw (t, e, k) refl
