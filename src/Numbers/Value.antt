-- ===== src/Numbers/Value.antt =====
-- `parse_digits`, the loops of safe_strtoIntType_base_internal in string/numbers.cc together, gives
-- the value of the digits in every base, by the tables of the two types.
use native.Mathlib.Nat.{pow-le-pow_right}
use cpp_base.Prelude.{
  ℕ, ◌+◌, ◌-◌, ◌*◌, ◌^◌, ◌<◌, ◌≤◌, ◌≡◌, refl, ap, ◌∙◌, arith, Bool, true, Option, none, some, List,
  length, All, ltb, leb, ◌==◌, ◌&&◌, get_or, ok, ◌>>=◌, load, load_in, if_split, ltb→lt, passes,
  passes_at, inl, inr, ◌⊎◌,
}
use cpp_base.Bytes.{Bytes}
use cpp_base.Numbers.Tables.{
  int32_max_length, int32_cutoff, int32_remain, int64_max_length, int64_cutoff, int64_remain,
}
use cpp_base.Numbers.Parse.{
  IntType, int32_type, int64_type, parse_digits, parse_short, parse_long, store_value,
}
use cpp_base.Numbers.Digits.{IsAscii, value_of, finish}
use cpp_base.Numbers.LongLoop.{parse_long-value_of, store_value_fits}
use cpp_base.Numbers.ShortLoop.{parse_short-value_of, value_of_less}

-- What the rows of the tables for a base hold.
pub record Rows (t : IntType) (max_length base : ℕ) : Type 0 where
  two_le : 2 ≤ base
  in_cutoff : base < length t.cutoff
  in_remainder : base < length t.remainder
  two_le_cutoff : 2 ≤ get_or t.cutoff base 0
  remainder_lt : get_or t.remainder base 0 < base
  limit_is : get_or t.cutoff base 0 * base + get_or t.remainder base 0 + 1 ≡ t.limit
  short_fits : (n : ℕ) → n < max_length → base ^ n ≤ t.limit

-- The test of a row.
row_test : IntType → List ℕ → ℕ → Bool
row_test t lengths base =
    leb 2 (get_or t.cutoff base 0)
    && ltb (get_or t.remainder base 0) base
    && (get_or t.cutoff base 0 * base + get_or t.remainder base 0 + 1 == t.limit)
    && leb (base ^ (get_or lengths base 0 - 1)) t.limit

row_holds :
    (t : IntType) (lengths : List ℕ) (base : ℕ)
    → 2 ≤ base
    → base < length t.cutoff
    → base < length t.remainder
    → row_test t lengths base ≡ true
    → (max_length : ℕ) → (max_length ≡ 0) ⊎ (max_length ≡ get_or lengths base 0)
    → Rows t max_length base
unfolding row_test
row_holds t lengths base h hc hr e max_length m = record {
  two_le = h;
  in_cutoff = hc;
  in_remainder = hr;
  two_le_cutoff = ground (arith, e);
  remainder_lt = ground (arith, e);
  limit_is = ground (arith, e);
  short_fits = λ n l. elim m [
    | inl z ↦ absurd (omega arith)
    | inr k ↦
        let row : base ^ (get_or lengths base 0 - 1) ≤ t.limit = ground (arith, e) in
        omega (
          arith,
          row,
          pow-le-pow_right {n = base} (omega arith) {i = n} {j = get_or lengths base 0 - 1}
              (omega arith),
        )
  ];
}

module _ (t : IntType) (max_length base : ℕ) (rows : Rows t max_length base) where
  -- A number that fits is stored.
  stored :
      (negative : Bool) (o : Option ℕ)
      → ((n : ℕ) → o ≡ some n → n < t.limit)
      → elim o [ none ↦ ok none | some value ↦ store_value t.limit negative value ]
        ≡ finish t.limit negative o
  unfolding finish
  stored negative none h = refl
  stored negative (some n) h = store_value_fits t.limit negative n (h n refl)

  short_value :
      (negative : Bool) (s : Bytes)
      → All IsAscii s
      → length s < max_length
      → (parse_short t.limit base s >>= λ r. elim r [
        | none ↦ ok none
        | some value ↦ store_value t.limit negative value
      ])
        ≡ finish t.limit negative (value_of base 0 s)
  short_value negative s a h =
      let fits = rows.short_fits (length s) h in
      ap
        (λ o.
          o >>= λ r. elim r [ none ↦ ok none | some value ↦ store_value t.limit negative value ])
        (parse_short-value_of t.limit base s a (omega (arith, rows.two_le)) fits)
      ∙ stored negative (value_of base 0 s) (λ n e.
        value_of_less t.limit base 0 s n (omega (arith, rows.two_le)) (omega (arith, fits)) e)

  long_value :
      (negative : Bool) (s : Bytes)
      → All IsAscii s
      → (load t.cutoff base >>= λ cutoff. load t.remainder base >>= λ remainder.
          parse_long t.limit base cutoff remainder negative 0 s)
        ≡ finish t.limit negative (value_of base 0 s)
  long_value negative s a =
      let c = get_or t.cutoff base 0 in
      let r = get_or t.remainder base 0 in
      ap
        (λ o. o >>= λ cutoff. load t.remainder base >>= λ remainder.
          parse_long t.limit base cutoff remainder negative 0 s)
        (load_in t.cutoff base 0 rows.in_cutoff)
      ∙ ap (λ o. o >>= λ remainder. parse_long t.limit base c remainder negative 0 s)
          (load_in t.remainder base 0 rows.in_remainder)
      ∙ parse_long-value_of t.limit base c r rows.two_le rows.two_le_cutoff rows.remainder_lt
          rows.limit_is negative 0 s (omega (arith, rows.limit_is)) a

  pub parse_digits-value_of :
      (negative : Bool) (s : Bytes)
      → All IsAscii s
      → parse_digits t max_length base negative s ≡ finish t.limit negative (value_of base 0 s)
  unfolding parse_digits finish
  parse_digits-value_of negative s a =
      if_split (ltb (length s) max_length) (λ short. short_value negative s a (ltb→lt _ _ short))
        (λ _. long_value negative s a)

rows32 :
    (base max_length : ℕ)
    → 2 ≤ base
    → base ≤ 36
    → (max_length ≡ 0) ⊎ (max_length ≡ get_or int32_max_length base 0)
    → Rows int32_type max_length base
unfolding int32_type row_test passes int32_max_length int32_cutoff int32_remain
rows32 base max_length lo hi m =
    row_holds int32_type int32_max_length base lo (omega arith) (omega arith)
      (ap (row_test int32_type int32_max_length) {x = base} {y = base - 2 + 2} (omega arith)
        ∙ passes_at (λ k. row_test int32_type int32_max_length (k + 2)) 35 refl (base - 2)
            (omega arith))
      max_length m

rows64 :
    (base max_length : ℕ)
    → 2 ≤ base
    → base ≤ 36
    → (max_length ≡ 0) ⊎ (max_length ≡ get_or int64_max_length base 0)
    → Rows int64_type max_length base
unfolding int64_type row_test passes int64_max_length int64_cutoff int64_remain
rows64 base max_length lo hi m =
    row_holds int64_type int64_max_length base lo (omega arith) (omega arith)
      (ap (row_test int64_type int64_max_length) {x = base} {y = base - 2 + 2} (omega arith)
        ∙ passes_at (λ k. row_test int64_type int64_max_length (k + 2)) 35 refl (base - 2)
            (omega arith))
      max_length m

-- In every base from 2 to 36, and with the maximal length of that base or, where the base is found by
-- the prefix, 0, the loops give for ASCII characters what the value of the digits comes to: nothing
-- overflows but the least number of the type, and no number that does not fit is accepted.
pub digits_lem :
    (base max32 max64 : ℕ) (negative : Bool) (s : Bytes)
    → 2 ≤ base
    → base ≤ 36
    → (max32 ≡ 0) ⊎ (max32 ≡ get_or int32_max_length base 0)
    → (max64 ≡ 0) ⊎ (max64 ≡ get_or int64_max_length base 0)
    → All IsAscii s
    → (parse_digits int32_type max32 base negative s ≡ finish (2 ^ 31) negative (value_of base 0 s))
      × (parse_digits int64_type max64 base negative s
          ≡ finish (2 ^ 63) negative (value_of base 0 s))
unfolding int32_type int64_type
digits_lem base max32 max64 negative s lo hi m n a = (
  parse_digits-value_of int32_type max32 base (rows32 base max32 lo hi m) negative s a,
  parse_digits-value_of int64_type max64 base (rows64 base max64 lo hi n) negative s a,
)
