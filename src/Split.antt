-- ===== src/Split.antt =====
-- string/split.cc and string/split.h. The searches of std::string give an index, or `none` for npos.
pub mod Pieces
pub mod Trim
pub mod Joined
mod Tests
use cpp_base.Prelude.{
  ℕ, zero, suc, ◌+◌, ◌-◌, Bool, true, false, not, ◌&&◌, ◌||◌, Option, none, some, List, [], ◌∷◌,
  ◌++◌, length, take, drop, ltb, leb, ◌==◌, if◌then◌else◌, Outcome, ok, thrown, ◌>>=◌, ◌>>◌, check,
}
use cpp_base.Bytes.{Bytes}

unfoldable pub is_delimiter : Bytes → ℕ → Bool
is_delimiter [] c = false
is_delimiter (d ∷ delim) c = c == d || is_delimiter delim c

-- The first index, from `i` on, of a character that passes a test; the text is what begins at `i`.
unfoldable pub find_from : (ℕ → Bool) → ℕ → Bytes → Option ℕ
find_from test i [] = none
find_from test i (c ∷ s) = if test c then some i else find_from test (i + 1) s

unfoldable pub find_first_of : Bytes → Bytes → ℕ → Option ℕ
unfolding find_from is_delimiter
find_first_of full delim i = find_from (is_delimiter delim) i (drop i full)

unfoldable pub find_first_not_of : Bytes → Bytes → ℕ → Option ℕ
unfolding find_from is_delimiter
find_first_not_of full delim i = find_from (λ c. not (is_delimiter delim c)) i (drop i full)

-- The loop for a single delimiter: the piece that is open, if `start` is set, and what `p` has not
-- reached.
unfoldable pub split_char : ℕ → Option Bytes → Bytes → List Bytes
split_char c none [] = []
split_char c (some piece) [] = piece ∷ []
split_char c none (x ∷ s) = if x == c then split_char c none s else split_char c (some (x ∷ [])) s
split_char c (some piece) (x ∷ s) =
    if x == c then piece ∷ split_char c none s else split_char c (some (piece ++ (x ∷ []))) s

-- The loop for any delimiters, on fuel: each round leaves a later part of the text.
unfoldable pub split_loop : ℕ → Bytes → Bytes → Option ℕ → List Bytes
unfolding find_first_of find_first_not_of
split_loop fuel full delim none = []
split_loop zero full delim (some begin) = []
split_loop (suc fuel) full delim (some begin) = elim (find_first_of full delim begin) [
  | none ↦ take (length full - begin) (drop begin full) ∷ []
  | some end ↦
      take (end - begin) (drop begin full)
      ∷ split_loop fuel full delim (find_first_not_of full delim end)
]

unfoldable pub split_any : Bytes → Bytes → List Bytes
unfolding split_loop find_first_not_of
split_any full delim = split_loop (length full) full delim (find_first_not_of full delim 0)

unfoldable pub internal_split_string_using : Bytes → Bytes → List Bytes
unfolding split_char split_any
internal_split_string_using full [] = split_any full []
internal_split_string_using full (c ∷ []) = split_char c none full
internal_split_string_using full (c ∷ d ∷ delim) = split_any full (c ∷ d ∷ delim)

abbrev pub skip_empty : ℕ
skip_empty = 0xDEADBEEF

unfoldable pub split : Bytes → Bytes → ℕ → Outcome (List Bytes)
unfolding internal_split_string_using
split full delim flags = check (skip_empty == flags) >> ok (internal_split_string_using full delim)

-- `find_last_not_of`: the last such index before the end, with the last one that was found so far.
unfoldable pub find_last_from : (ℕ → Bool) → ℕ → Option ℕ → Bytes → Option ℕ
find_last_from test i found [] = found
find_last_from test i found (c ∷ s) =
    find_last_from test (i + 1) (if test c then some i else found) s

-- `substr`, with npos for a length as large as the text.
unfoldable pub substr : Bytes → ℕ → ℕ → Outcome Bytes
substr s pos n = if leb pos (length s) then ok (take n (drop pos s)) else thrown

unfoldable pub string_trim : Bytes → Outcome Bytes
unfolding find_from find_last_from substr
string_trim s = elim (find_from (λ c. not (c == b' ')) 0 s) [
  | none ↦ substr s 0 (length s - 1)
  | some pos1 ↦ elim (find_last_from (λ c. not (c == b' ')) 0 none s) [
    | none ↦ substr s pos1 (length s - 1)
    | some pos2 ↦ substr s pos1 (pos2 - pos1 + 1)
  ]
]

-- Whether `strncmp` of two C strings gives 0: it stops at a null character.
unfoldable pub strncmp_eq : ℕ → Bytes → Bytes → Bool
strncmp_eq zero s t = true
strncmp_eq (suc n) [] [] = true
strncmp_eq (suc n) [] (b ∷ t) = b == 0
strncmp_eq (suc n) (a ∷ s) [] = a == 0
strncmp_eq (suc n) (a ∷ s) (b ∷ t) = let rest = strncmp_eq n s t in a == b && (a == 0 || rest)

unfoldable pub starts_with : Bytes → Bytes → Bool
unfolding strncmp_eq
starts_with s1 s2 = if ltb (length s1) (length s2) then false else strncmp_eq (length s2) s1 s2

unfoldable pub ends_with : Bytes → Bytes → Bool
unfolding strncmp_eq
ends_with s1 s2 =
    if ltb (length s1) (length s2)
    then false
    else strncmp_eq (length s2) (drop (length s1 - length s2) s1) s2
