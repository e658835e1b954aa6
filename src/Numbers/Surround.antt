-- ===== src/Numbers/Surround.antt =====
-- Numerals between whitespace, as safe_strtoIntType_base_internal of string/numbers.cc reads them.
use native.Mathlib.Nat.{pow-suc}
use cpp_base.Prelude.{
  ℕ, zero, suc, ◌+◌, ◌-◌, ◌*◌, ◌/◌, ◌%◌, ◌^◌, ◌<◌, ◌≤◌, ◌≡◌, refl, ap, ◌∙◌, sym, arith, true, false,
  some, [], ◌∷◌, ◌++◌, length, All, leb, leb→le, Bool-cases, subst, inl, inr, append-nil,
}
use cpp_base.Bytes.{Bytes}
use cpp_base.AsciiCtype.{ascii_isspace}
use cpp_base.Numbers.Decimal.{padded, decimal, decimal_shape, length-padded}
use cpp_base.Numbers.Parse.{last_or, but_last, strip_spaces}
use cpp_base.Numbers.Digits.{IsAscii, digit_value, value_of, value_of_bad, value_of_good}
use cpp_base.Numbers.Strip.{strip_spaces_none}

abbrev pub IsSpace : ℕ → Type 0
IsSpace c = ascii_isspace c ≡ true

abbrev pub IsDigit : ℕ → Type 0
IsDigit c = (48 ≤ c) × (c ≤ 57)

last_or-append : (s : Bytes) (p c : ℕ) (q : Bytes) → last_or (s ++ (p ∷ q)) c ≡ last_or q p
last_or-append [] p c q = refl
last_or-append (b ∷ s) p c q = last_or-append s p b q

but_last-append :
    (b : ℕ) (s : Bytes) (p : ℕ) (q : Bytes)
    → but_last (b ∷ s ++ (p ∷ q)) ≡ b ∷ s ++ but_last (p ∷ q)
but_last-append b [] p q = refl
but_last-append b (c ∷ s) p q = ap (◌∷◌ b) (but_last-append c s p q)

length-but_last : (p : ℕ) (q : Bytes) → length (but_last (p ∷ q)) ≡ length q
length-but_last p [] = refl
length-but_last p (c ∷ q) = ap suc (length-but_last c q)

but_last-All : (p : ℕ) (q : Bytes) → All IsSpace (p ∷ q) → All IsSpace (but_last (p ∷ q))
but_last-All p [] a = tt
but_last-All p (c ∷ q) (h, a) = (h, but_last-All c q a)

last_or-IsSpace : (p : ℕ) (q : Bytes) → All IsSpace (p ∷ q) → IsSpace (last_or q p)
last_or-IsSpace p [] (h, a) = h
last_or-IsSpace p (c ∷ q) (h, a) = last_or-IsSpace c q a

pub last_or-IsDigit : (p : ℕ) (q : Bytes) → All IsDigit (p ∷ q) → IsDigit (last_or q p)
last_or-IsDigit p [] (h, a) = h
last_or-IsDigit p (c ∷ q) (h, a) = last_or-IsDigit c q a

-- The loop takes all whitespace off both ends, and nothing else.
pub strip_spaces_lem :
    (fuel : ℕ) (pre : Bytes) (b : ℕ) (w post : Bytes)
    → All IsSpace pre
    → All IsSpace post
    → ascii_isspace b ≡ false
    → ascii_isspace (last_or w b) ≡ false
    → length pre + suc (length w) + length post ≤ fuel
    → strip_spaces fuel (pre ++ (b ∷ w ++ post)) ≡ some (b ∷ w)
unfolding strip_spaces
strip_spaces_lem zero pre b w post hp hq hb hw h = absurd (omega arith)
strip_spaces_lem (suc fuel) (c ∷ pre) b w post (hc, hp) hq hb hw h =
    rw hc (strip_spaces_lem fuel pre b w post hp hq hb hw (omega arith))
strip_spaces_lem (suc fuel) [] b w [] hp hq hb hw h =
    ap (λ t. strip_spaces (suc fuel) (b ∷ t)) (append-nil w) ∙ strip_spaces_none fuel b w hb hw
strip_spaces_lem (suc fuel) [] b w (p ∷ post) hp hq hb hw h =
    let end : ascii_isspace (last_or (w ++ (p ∷ post)) b) ≡ true =
      ap ascii_isspace (last_or-append w p b post) ∙ last_or-IsSpace p post hq in
    let shorter = but_last-append b w p post in
    rw (hb, end, shorter)
      (strip_spaces_lem fuel [] b w (but_last (p ∷ post)) hp (but_last-All p post hq) hb hw
        (omega (arith, length-but_last p post)))

All-append : (P : ℕ → Type 0) (s t : Bytes) → All P s → All P t → All P (s ++ t)
All-append P [] t a b = b
All-append P (c ∷ s) t (h, a) b = (h, All-append P s t a b)

padded-IsDigit : (k v : ℕ) → All IsDigit (padded k v)
unfolding padded
padded-IsDigit zero v = tt
padded-IsDigit (suc k) v =
    All-append IsDigit (padded k (v / 10)) _ (padded-IsDigit k (v / 10))
      ((omega arith, omega arith), tt)

pub digits-IsAscii : (s : Bytes) → All IsDigit s → All IsAscii s
digits-IsAscii [] a = tt
digits-IsAscii (c ∷ s) ((lo, hi), a) = (omega arith, digits-IsAscii s a)

pub decimal-IsDigit : (v : ℕ) → v < 10 ^ 20 → All IsDigit (decimal v)
decimal-IsDigit v h =
    let (k, e, l) = decimal_shape v h in subst (All IsDigit) (sym e) (padded-IsDigit (suc k) v)

-- A numeral is not empty.
cons_of : (s : Bytes) (n : ℕ) → length s ≡ suc n → (b : ℕ) × (w : Bytes) × (s ≡ b ∷ w)
cons_of [] n e = absurd (omega arith)
cons_of (b ∷ w) n e = (b, w, refl)

pub decimal_cons : (v : ℕ) → v < 10 ^ 20 → (b : ℕ) × (w : Bytes) × (decimal v ≡ b ∷ w)
decimal_cons v h =
    let (k, e, l) = decimal_shape v h in
    cons_of (decimal v) k (ap length e ∙ length-padded (suc k) v)

digit_value_digit : (c : ℕ) → IsDigit c → digit_value c ≡ c - 48
unfolding digit_value
digit_value_digit c (lo, hi) = ground arith

-- One more digit at the end.
value_of_snoc :
    (a m c : ℕ) (s : Bytes)
    → IsDigit c
    → value_of 10 a s ≡ some m
    → value_of 10 a (s ++ (c ∷ [])) ≡ some (m * 10 + (c - 48))
unfolding value_of
value_of_snoc a m c [] h e =
    let d = digit_value_digit c h in
    let same : a ≡ m = ground (arith, e) in
    value_of_good 10 a c [] (omega (arith, d, h.1)) ∙ ap some (omega (arith, d, same))
value_of_snoc a m c (x ∷ s) h e = elim (Bool-cases (leb 10 (digit_value x))) [
  | inl f ↦ absurd (cc (e, value_of_bad 10 a x s (leb→le _ _ f)))
  | inr f ↦
      let good : digit_value x < 10 = ground arith in
      value_of_good 10 a x (s ++ (c ∷ [])) good
      ∙ value_of_snoc (a * 10 + digit_value x) m c s h (sym (value_of_good 10 a x s good) ∙ e)
]

value_of-padded : (k v : ℕ) → v < 10 ^ k → value_of 10 0 (padded k v) ≡ some v
unfolding padded value_of
value_of-padded zero v h = ap some (omega arith)
value_of-padded (suc k) v h =
    value_of_snoc 0 (v / 10) (48 + v % 10) (padded k (v / 10)) (omega arith, omega arith)
      (value_of-padded k (v / 10) (omega (arith, pow-suc 10 k)))
    ∙ ap some (omega arith)

pub value_of-decimal : (v : ℕ) → v < 10 ^ 20 → value_of 10 0 (decimal v) ≡ some v
value_of-decimal v h =
    let (k, e, l) = decimal_shape v h in ap (value_of 10 0) e ∙ value_of-padded (suc k) v l
