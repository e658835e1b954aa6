-- ===== src/AsciiCtype/Classes.antt =====
-- The tables of util/ascii_ctype.cc give the classes that the comments there name.
use cpp_base.Prelude.{
  ℕ, ◌+◌, ◌-◌, ◌<◌, ◌≡◌, refl, arith, Bool, true, not, ◌&&◌, ◌||◌, leb, ◌==◌, ==_iff, if◌then◌else◌,
  passes, passes_at,
}
use cpp_base.AsciiCtype.{
  ascii_isalpha, ascii_isalnum, ascii_isspace, ascii_ispunct, ascii_isblank, ascii_iscntrl,
  ascii_isxdigit, ascii_isdigit, ascii_isprint, ascii_isgraph, ascii_isupper, ascii_islower,
  ascii_isascii, ascii_tolower, ascii_toupper,
}

same : Bool → Bool → Bool
same a b = if a then b else not b

same_to : (a b : Bool) → same a b ≡ true → a ≡ b
unfolding same
same_to a b h = ground arith

isalpha_table : passes (λ c. same (ascii_isalpha c) (ascii_isupper c || ascii_islower c)) 256 ≡ true
unfolding passes same ascii_isalpha ascii_isalnum ascii_isspace ascii_ispunct ascii_isblank
    ascii_iscntrl ascii_isxdigit ascii_isdigit ascii_isprint ascii_isgraph ascii_isupper
    ascii_islower ascii_isascii ascii_tolower ascii_toupper
isalpha_table = refl

isalnum_table : passes (λ c. same (ascii_isalnum c) (ascii_isalpha c || ascii_isdigit c)) 256 ≡ true
unfolding passes same ascii_isalpha ascii_isalnum ascii_isspace ascii_ispunct ascii_isblank
    ascii_iscntrl ascii_isxdigit ascii_isdigit ascii_isprint ascii_isgraph ascii_isupper
    ascii_islower ascii_isascii ascii_tolower ascii_toupper
isalnum_table = refl

isspace_table : passes (λ c. same (ascii_isspace c) (c == b' ' || leb 9 c && leb c 13)) 256 ≡ true
unfolding passes same ascii_isalpha ascii_isalnum ascii_isspace ascii_ispunct ascii_isblank
    ascii_iscntrl ascii_isxdigit ascii_isdigit ascii_isprint ascii_isgraph ascii_isupper
    ascii_islower ascii_isascii ascii_tolower ascii_toupper
isspace_table = refl

ispunct_table :
    passes (λ c. same (ascii_ispunct c) (ascii_isgraph c && not (ascii_isalnum c))) 256 ≡ true
unfolding passes same ascii_isalpha ascii_isalnum ascii_isspace ascii_ispunct ascii_isblank
    ascii_iscntrl ascii_isxdigit ascii_isdigit ascii_isprint ascii_isgraph ascii_isupper
    ascii_islower ascii_isascii ascii_tolower ascii_toupper
ispunct_table = refl

isblank_table : passes (λ c. same (ascii_isblank c) (c == b' ' || c == 9)) 256 ≡ true
unfolding passes same ascii_isalpha ascii_isalnum ascii_isspace ascii_ispunct ascii_isblank
    ascii_iscntrl ascii_isxdigit ascii_isdigit ascii_isprint ascii_isgraph ascii_isupper
    ascii_islower ascii_isascii ascii_tolower ascii_toupper
isblank_table = refl

iscntrl_table :
    passes (λ c. same (ascii_iscntrl c) (ascii_isascii c && not (ascii_isprint c))) 256 ≡ true
unfolding passes same ascii_isalpha ascii_isalnum ascii_isspace ascii_ispunct ascii_isblank
    ascii_iscntrl ascii_isxdigit ascii_isdigit ascii_isprint ascii_isgraph ascii_isupper
    ascii_islower ascii_isascii ascii_tolower ascii_toupper
iscntrl_table = refl

isxdigit_table :
    passes
      (λ c.
        same
          (ascii_isxdigit c)
          (ascii_isdigit c || leb b'a' (ascii_tolower c) && leb (ascii_tolower c) b'f'))
      256
    ≡ true
unfolding passes same ascii_isalpha ascii_isalnum ascii_isspace ascii_ispunct ascii_isblank
    ascii_iscntrl ascii_isxdigit ascii_isdigit ascii_isprint ascii_isgraph ascii_isupper
    ascii_islower ascii_isascii ascii_tolower ascii_toupper
isxdigit_table = refl

tolower_table : passes (λ c. ascii_tolower c == (if ascii_isupper c then c + 32 else c)) 256 ≡ true
unfolding passes same ascii_isalpha ascii_isalnum ascii_isspace ascii_ispunct ascii_isblank
    ascii_iscntrl ascii_isxdigit ascii_isdigit ascii_isprint ascii_isgraph ascii_isupper
    ascii_islower ascii_isascii ascii_tolower ascii_toupper
tolower_table = refl

toupper_table : passes (λ c. ascii_toupper c == (if ascii_islower c then c - 32 else c)) 256 ≡ true
unfolding passes same ascii_isalpha ascii_isalnum ascii_isspace ascii_ispunct ascii_isblank
    ascii_iscntrl ascii_isxdigit ascii_isdigit ascii_isprint ascii_isgraph ascii_isupper
    ascii_islower ascii_isascii ascii_tolower ascii_toupper
toupper_table = refl

-- On every byte the tables agree with the classes that are computed: the letters are the upper and
-- lower ones, the punctuation is what is visible and neither letter nor digit, the control characters
-- are what is ASCII and not printable, and so on; tolower and toupper move the letters by 32 and leave
-- every other byte.
pub ascii_tables :
    (c : ℕ)
    → c < 256
    → (ascii_isalpha c ≡ (ascii_isupper c || ascii_islower c))
      × (ascii_isalnum c ≡ (ascii_isalpha c || ascii_isdigit c))
      × (ascii_isspace c ≡ (c == b' ' || leb 9 c && leb c 13))
      × (ascii_ispunct c ≡ (ascii_isgraph c && not (ascii_isalnum c)))
      × (ascii_isblank c ≡ (c == b' ' || c == 9))
      × (ascii_iscntrl c ≡ (ascii_isascii c && not (ascii_isprint c)))
      × (ascii_isxdigit c
          ≡ (ascii_isdigit c || leb b'a' (ascii_tolower c) && leb (ascii_tolower c) b'f'))
      × (ascii_tolower c ≡ ((if ascii_isupper c then c + 32 else c)))
      × (ascii_toupper c ≡ ((if ascii_islower c then c - 32 else c)))
ascii_tables c h = (
  same_to _ _ (
      passes_at (λ c. same (ascii_isalpha c) (ascii_isupper c || ascii_islower c)) 256 isalpha_table
        c h),
  same_to _ _ (
      passes_at (λ c. same (ascii_isalnum c) (ascii_isalpha c || ascii_isdigit c)) 256 isalnum_table
        c h),
  same_to _ _ (
      passes_at (λ c. same (ascii_isspace c) (c == b' ' || leb 9 c && leb c 13)) 256 isspace_table c
        h),
  same_to _ _ (
      passes_at (λ c. same (ascii_ispunct c) (ascii_isgraph c && not (ascii_isalnum c))) 256
        ispunct_table c h),
  same_to _ _ (passes_at (λ c. same (ascii_isblank c) (c == b' ' || c == 9)) 256 isblank_table c h),
  same_to _ _ (
      passes_at (λ c. same (ascii_iscntrl c) (ascii_isascii c && not (ascii_isprint c))) 256
        iscntrl_table c h),
  same_to _ _ (
      passes_at
        (λ c.
          same (ascii_isxdigit c)
            (ascii_isdigit c || leb b'a' (ascii_tolower c) && leb (ascii_tolower c) b'f'))
        256 isxdigit_table c h),
  (==_iff _ _).0 (
      passes_at (λ c. ascii_tolower c == (if ascii_isupper c then c + 32 else c)) 256 tolower_table
        c h),
  (==_iff _ _).0 (
      passes_at (λ c. ascii_toupper c == (if ascii_islower c then c - 32 else c)) 256 toupper_table
        c h),
)
