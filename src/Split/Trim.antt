-- ===== src/Split/Trim.antt =====
-- StringTrim of string/split.h.
use cpp_base.Prelude.{
  ℕ, zero, suc, ◌+◌, ◌-◌, ◌≡◌, refl, ap, ◌∙◌, sym, arith, Bool, false, not, Option, none, some, [],
  ◌∷◌, ◌++◌, length, take, replicate, ◌==◌, if◌then◌else◌, ok, le→leb, length-append, drop-append,
  length-replicate, replicate-snoc, take-append, append-nil,
}
use cpp_base.Bytes.{Bytes}
use cpp_base.Split.{find_from, find_last_from, substr, string_trim}

abbrev not_blank : ℕ → Bool
not_blank c = not (c == b' ')

abbrev pub last_of : Bytes → ℕ → ℕ
last_of [] c = c
last_of (b ∷ s) c = last_of s b

abbrev blanks : ℕ → Bytes
blanks n = replicate n b' '

find_from-blanks :
    (i m : ℕ) (s : Bytes) → find_from not_blank i (blanks m ++ s) ≡ find_from not_blank (i + m) s
unfolding find_from
find_from-blanks i zero s = ap (λ j. find_from not_blank j s) {x = i} {y = i + 0} (omega arith)
find_from-blanks i (suc m) s =
    find_from-blanks (i + 1) m s
    ∙ ap (λ j. find_from not_blank j s) {x = i + 1 + m} {y = i + suc m} (omega arith)

find_last_from-blanks :
    (i m : ℕ) (found : Option ℕ) (s : Bytes)
    → find_last_from not_blank i found (blanks m ++ s) ≡ find_last_from not_blank (i + m) found s
unfolding find_last_from
find_last_from-blanks i zero found s =
    ap (λ j. find_last_from not_blank j found s) {x = i} {y = i + 0} (omega arith)
find_last_from-blanks i (suc m) found s =
    find_last_from-blanks (i + 1) m found s
    ∙ ap (λ j. find_last_from not_blank j found s) {x = i + 1 + m} {y = i + suc m} (omega arith)

-- The last character that is no blank.
find_last_from_end :
    (i n b : ℕ) (found : Option ℕ) (w : Bytes)
    → (last_of w b == b' ') ≡ false
    → find_last_from not_blank i found (b ∷ w ++ blanks n) ≡ some (i + length w)
unfolding find_last_from
find_last_from_end i n b found [] h =
    ap (λ t. find_last_from not_blank (i + 1) (if not t then some i else found) (blanks n)) h
    ∙ ap (find_last_from not_blank (i + 1) (some i)) (sym (append-nil (blanks n)))
    ∙ find_last_from-blanks (i + 1) n (some i) []
    ∙ ap some (omega arith)
find_last_from_end i n b found (c ∷ w) h =
    find_last_from_end (i + 1) n c (if not_blank b then some i else found) w h
    ∙ ap some (omega arith)

substr_in :
    (pre w post : Bytes) (pos n : ℕ)
    → length pre ≡ pos
    → length w ≡ n
    → substr (pre ++ (w ++ post)) pos n ≡ ok w
unfolding substr
substr_in pre w post pos n e h =
    rw (le→leb pos (length (pre ++ (w ++ post))) (omega (arith, length-append pre (w ++ post))))
      (ap (λ t. ok (take n t)) (drop-append pre (w ++ post) pos e) ∙ ap ok (take-append w post n h))

found_first : (b i : ℕ) (s : Bytes) → (b == b' ') ≡ false → find_from not_blank i (b ∷ s) ≡ some i
unfolding find_from
found_first b i s h = rw h refl

-- StringTrim takes the blanks off both ends of a text that has another character.
string_trim_both :
    (m n b : ℕ) (w : Bytes)
    → (b == b' ') ≡ false
    → (last_of w b == b' ') ≡ false
    → string_trim (replicate m b' ' ++ (b ∷ w ++ replicate n b' ')) ≡ ok (b ∷ w)
unfolding string_trim
string_trim_both m n b w hb hw =
    let s = blanks m ++ (b ∷ w ++ blanks n) in
    let first : find_from not_blank 0 s ≡ some (0 + m) =
      find_from-blanks 0 m (b ∷ w ++ blanks n) ∙ found_first b (0 + m) (w ++ blanks n) hb in
    let end : find_last_from not_blank 0 none s ≡ some (0 + m + length w) =
      find_last_from-blanks 0 m none (b ∷ w ++ blanks n)
      ∙ find_last_from_end (0 + m) n b none w hw in
    ap
      (λ o. elim o [
        | none ↦ substr s 0 (length s - 1)
        | some pos1 ↦ elim (find_last_from not_blank 0 none s) [
          | none ↦ substr s pos1 (length s - 1)
          | some pos2 ↦ substr s pos1 (pos2 - pos1 + 1)
        ]
      ])
      first
    ∙ ap
        (λ o. elim o [
          | none ↦ substr s (0 + m) (length s - 1)
          | some pos2 ↦ substr s (0 + m) (pos2 - (0 + m) + 1)
        ])
        end
    ∙ (substr_in (blanks m) (b ∷ w) (blanks n) (0 + m) (0 + m + length w - (0 + m) + 1)
        (length-replicate m b' ' ∙ omega arith) (omega arith))

-- Of a text of blanks alone StringTrim takes off one.
string_trim_blanks : (n : ℕ) → string_trim (replicate (suc n) b' ') ≡ ok (replicate n b' ')
unfolding string_trim
string_trim_blanks n =
    let none_found : find_from not_blank 0 (blanks (suc n)) ≡ none =
      ap (find_from not_blank 0) (sym (append-nil (blanks (suc n))))
      ∙ find_from-blanks 0 (suc n) []
      ∙ nothing (0 + suc n) in
    ap
      (λ o. elim o [
        | none ↦ substr (blanks (suc n)) 0 (length (blanks (suc n)) - 1)
        | some pos1 ↦ elim (find_last_from not_blank 0 none (blanks (suc n))) [
          | none ↦ substr (blanks (suc n)) pos1 (length (blanks (suc n)) - 1)
          | some pos2 ↦ substr (blanks (suc n)) pos1 (pos2 - pos1 + 1)
        ]
      ])
      none_found
    ∙ ap (λ s. substr s 0 (length (blanks (suc n)) - 1)) (sym (replicate-snoc n b' '))
    ∙ ap (λ t. substr (blanks n ++ t) 0 (length (blanks (suc n)) - 1)) {x = b' ' ∷ []}
        {y = [] ++ (b' ' ∷ [])} refl
    ∙ substr_in [] (blanks n) (b' ' ∷ []) 0 (length (blanks (suc n)) - 1) refl (omega arith)
  where
    nothing : (i : ℕ) → find_from not_blank i [] ≡ none
    nothing i = unfold find_from in refl

-- StringTrim takes the blanks off both ends of a text that has another character; of a text of blanks
-- alone it takes off one.
pub string_trim_lem :
    (m n b : ℕ) (w : Bytes)
    → (b == b' ') ≡ false
    → (last_of w b == b' ') ≡ false
    → (string_trim (replicate m b' ' ++ (b ∷ w ++ replicate n b' ')) ≡ ok (b ∷ w))
      × (string_trim (replicate (suc n) b' ') ≡ ok (replicate n b' '))
string_trim_lem m n b w hb hw = (string_trim_both m n b w hb hw, string_trim_blanks n)
