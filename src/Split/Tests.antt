-- ===== src/Split/Tests.antt =====
-- Runs of the splitting, and the theorems on it at inputs.
use cpp_base.Prelude.{◌≡◌, refl, true, false, none, [], ◌∷◌, ◌++◌, replicate, ok}
use cpp_base.Bytes.{Bytes}
use cpp_base.Split.{
  split, skip_empty, split_any, split_char, internal_split_string_using, string_trim, starts_with,
  ends_with,
}
use cpp_base.Split.Pieces.{split_any-split_char}
use cpp_base.Split.Joined.{joined_by, split_joined}
use cpp_base.Split.Trim.{string_trim_lem}

-- " a,b;" with the delimiters " ,;".
abbrev text : Bytes
text = b' ' ∷ b'a' ∷ b',' ∷ b'b' ∷ b';' ∷ []

two_pieces : split text (b' ' ∷ b',' ∷ b';' ∷ []) skip_empty ≡ ok ((b'a' ∷ []) ∷ (b'b' ∷ []) ∷ [])
unfolding split
two_pieces = refl

prefix_run : starts_with text (b' ' ∷ b'a' ∷ []) ≡ true
unfolding starts_with
prefix_run = refl

suffix_run : ends_with text (b',' ∷ []) ≡ false
unfolding ends_with
suffix_run = refl

split_any-split_char_example : split_any text (b',' ∷ []) ≡ split_char b',' none text
split_any-split_char_example = split_any-split_char b',' text

split_joined_example :
    internal_split_string_using (joined_by b',' (b'a' ∷ []) ((b'b' ∷ []) ∷ [])) (b',' ∷ [])
    ≡ (b'a' ∷ []) ∷ (b'b' ∷ []) ∷ []
split_joined_example = split_joined b',' (b'a' ∷ []) ((b'b' ∷ []) ∷ []) (refl, tt) ((refl, tt), tt)

string_trim_lem_example :
    (string_trim (replicate 2 b' ' ++ (b'a' ∷ (b' ' ∷ b'b' ∷ []) ++ replicate 1 b' '))
      ≡ ok (b'a' ∷ b' ' ∷ b'b' ∷ []))
    × (string_trim (replicate 2 b' ') ≡ ok (replicate 1 b' '))
string_trim_lem_example = string_trim_lem 2 1 b'a' (b' ' ∷ b'b' ∷ []) refl refl
