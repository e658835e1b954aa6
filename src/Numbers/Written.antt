-- ===== src/Numbers/Written.antt =====
-- What each label of FastUInt32ToBufferLeft of string/numbers.cc writes.
use cpp_base.Prelude.{
  ℕ, ◌+◌, ◌*◌, ◌/◌, ◌%◌, ◌^◌, ◌<◌, ◌≡◌, refl, ap, ◌∙◌, sym, arith, [], ◌∷◌, ◌++◌, ◌==◌,
  append_assoc, ok, ◌>>=◌, load_in, get_or, passes, passes_at, ==_iff,
}
use cpp_base.Bytes.{Bytes}
use cpp_base.Numbers.Tables.{two_ascii_digits}
use cpp_base.Numbers.Print.{
  sub_digits, put_two, put_one, lt100, sublt100, lt10_000, sublt10_000, lt1_000_000, sublt1_000_000,
  lt100_000_000, sublt100_000_000,
}
use cpp_base.Numbers.Decimal.{padded, padded_split}

tens_at : (n : ℕ) → n < 100 → (get_or two_ascii_digits n (0, 0)).0 ≡ 48 + n / 10 % 10
unfolding two_ascii_digits passes
tens_at n h =
    (==_iff _ _).0
      (passes_at (λ k. (get_or two_ascii_digits k (0, 0)).0 == 48 + k / 10 % 10) 100 refl n h)

units_at : (n : ℕ) → n < 100 → (get_or two_ascii_digits n (0, 0)).1 ≡ 48 + n % 10
unfolding two_ascii_digits passes
units_at n h =
    (==_iff _ _).0
      (passes_at (λ k. (get_or two_ascii_digits k (0, 0)).1 == 48 + k % 10) 100 refl n h)

pub put_two_lem : (n : ℕ) (out : Bytes) → n < 100 → put_two n out ≡ ok (out ++ padded 2 n)
unfolding put_two padded two_ascii_digits
put_two_lem n out h =
    ap (λ o. o >>= λ p. ok (out ++ (p.0 ∷ p.1 ∷ []))) (load_in two_ascii_digits n (0, 0) h)
    ∙ rw (tens_at n h, units_at n h) refl

-- One digit.
pub padded_one : (n : ℕ) → n < 10 → padded 1 n ≡ (48 + n) ∷ []
unfolding padded
padded_one n h = let e : n % 10 ≡ n = omega arith in rw e refl

pub sub_digits_in :
    (u digits unit r : ℕ)
    → digits * unit < 2 ^ 31
    → digits * unit + r ≡ u
    → u < 2 ^ 32
    → sub_digits u digits unit ≡ ok r
unfolding sub_digits
sub_digits_in u digits unit r h e hu = ground arith

-- The text so far, the first digits, and the rest.
pub joined_digits :
    (out : Bytes) (j k a b n : ℕ)
    → b < 10 ^ k
    → a * 10 ^ k + b ≡ n
    → (out ++ padded j a) ++ padded k b ≡ out ++ padded (k + j) n
joined_digits out j k a b n h e =
    append_assoc out (padded j a) (padded k b)
    ∙ ap (λ t. out ++ t) (sym (padded_split j k a b h) ∙ ap (padded (k + j)) e)

pub lt100_lem : (u : ℕ) (out : Bytes) → u < 100 → lt100 u out ≡ ok (out ++ padded 2 u)
unfolding lt100
lt100_lem u out h = put_two_lem u out h

pub sublt100_lem :
    (j u : ℕ) (out : Bytes)
    → u < 10000
    → sublt100 (u / 100) u (out ++ padded j (u / 100)) ≡ ok (out ++ padded (2 + j) u)
unfolding sublt100
sublt100_lem j u out h =
    ap (λ o. o >>= λ v. lt100 v (out ++ padded j (u / 100)))
      (sub_digits_in u (u / 100) 100 (u % 100) (omega arith) (omega arith) (omega arith))
    ∙ lt100_lem (u % 100) (out ++ padded j (u / 100)) (omega arith)
    ∙ ap ok (joined_digits out j 2 (u / 100) (u % 100) u (omega arith) (omega arith))

pub lt10_000_lem : (u : ℕ) (out : Bytes) → u < 10000 → lt10_000 u out ≡ ok (out ++ padded 4 u)
unfolding lt10_000
lt10_000_lem u out h =
    ap (λ o. o >>= λ t. sublt100 (u / 100) u t) (put_two_lem (u / 100) out (omega arith))
    ∙ sublt100_lem 2 u out h

pub sublt10_000_lem :
    (j u : ℕ) (out : Bytes)
    → u < 1000000
    → sublt10_000 (u / 10000) u (out ++ padded j (u / 10000)) ≡ ok (out ++ padded (4 + j) u)
unfolding sublt10_000
sublt10_000_lem j u out h =
    ap (λ o. o >>= λ v. lt10_000 v (out ++ padded j (u / 10000)))
      (sub_digits_in u (u / 10000) 10000 (u % 10000) (omega arith) (omega arith) (omega arith))
    ∙ lt10_000_lem (u % 10000) (out ++ padded j (u / 10000)) (omega arith)
    ∙ ap ok (joined_digits out j 4 (u / 10000) (u % 10000) u (omega arith) (omega arith))

pub lt1_000_000_lem :
    (u : ℕ) (out : Bytes) → u < 1000000 → lt1_000_000 u out ≡ ok (out ++ padded 6 u)
unfolding lt1_000_000
lt1_000_000_lem u out h =
    ap (λ o. o >>= λ t. sublt10_000 (u / 10000) u t) (put_two_lem (u / 10000) out (omega arith))
    ∙ sublt10_000_lem 2 u out h

pub sublt1_000_000_lem :
    (j u : ℕ) (out : Bytes)
    → u < 100000000
    → sublt1_000_000 (u / 1000000) u (out ++ padded j (u / 1000000)) ≡ ok (out ++ padded (6 + j) u)
unfolding sublt1_000_000
sublt1_000_000_lem j u out h =
    ap (λ o. o >>= λ v. lt1_000_000 v (out ++ padded j (u / 1000000)))
      (sub_digits_in u (u / 1000000) 1000000 (u % 1000000) (omega arith) (omega arith)
        (omega arith))
    ∙ lt1_000_000_lem (u % 1000000) (out ++ padded j (u / 1000000)) (omega arith)
    ∙ ap ok (joined_digits out j 6 (u / 1000000) (u % 1000000) u (omega arith) (omega arith))

pub lt100_000_000_lem :
    (u : ℕ) (out : Bytes) → u < 100000000 → lt100_000_000 u out ≡ ok (out ++ padded 8 u)
unfolding lt100_000_000
lt100_000_000_lem u out h =
    ap (λ o. o >>= λ t. sublt1_000_000 (u / 1000000) u t)
      (put_two_lem (u / 1000000) out (omega arith))
    ∙ sublt1_000_000_lem 2 u out h

pub sublt100_000_000_lem :
    (j u : ℕ) (out : Bytes)
    → u < 2200000000
    → sublt100_000_000 (u / 100000000) u (out ++ padded j (u / 100000000))
      ≡ ok (out ++ padded (8 + j) u)
unfolding sublt100_000_000
sublt100_000_000_lem j u out h =
    ap (λ o. o >>= λ v. lt100_000_000 v (out ++ padded j (u / 100000000)))
      (sub_digits_in u (u / 100000000) 100000000 (u % 100000000) (omega arith) (omega arith)
        (omega arith))
    ∙ lt100_000_000_lem (u % 100000000) (out ++ padded j (u / 100000000)) (omega arith)
    ∙ ap ok (joined_digits out j 8 (u / 100000000) (u % 100000000) u (omega arith) (omega arith))

pub put_one_lem : (n : ℕ) (out : Bytes) → n < 10 → put_one n out ≡ out ++ padded 1 n
unfolding put_one
put_one_lem n out h = ap (◌++◌ out) (sym (padded_one n h))
