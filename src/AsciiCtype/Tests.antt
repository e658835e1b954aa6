-- ===== src/AsciiCtype/Tests.antt =====
-- The theorem on the classes at an input.
use cpp_base.Prelude.{◌+◌, ◌-◌, ◌≡◌, arith, not, ◌&&◌, ◌||◌, leb, ◌==◌, if◌then◌else◌}
use cpp_base.AsciiCtype.{
  ascii_isalpha, ascii_isalnum, ascii_isspace, ascii_ispunct, ascii_isblank, ascii_iscntrl,
  ascii_isxdigit, ascii_isdigit, ascii_isprint, ascii_isgraph, ascii_isupper, ascii_islower,
  ascii_isascii, ascii_tolower, ascii_toupper,
}
use cpp_base.AsciiCtype.Classes.{ascii_tables}

ascii_tables_example :
    (ascii_isalpha b'Q' ≡ (ascii_isupper b'Q' || ascii_islower b'Q'))
    × (ascii_isalnum b'Q' ≡ (ascii_isalpha b'Q' || ascii_isdigit b'Q'))
    × (ascii_isspace b'Q' ≡ (b'Q' == b' ' || leb 9 b'Q' && leb b'Q' 13))
    × (ascii_ispunct b'Q' ≡ (ascii_isgraph b'Q' && not (ascii_isalnum b'Q')))
    × (ascii_isblank b'Q' ≡ (b'Q' == b' ' || b'Q' == 9))
    × (ascii_iscntrl b'Q' ≡ (ascii_isascii b'Q' && not (ascii_isprint b'Q')))
    × (ascii_isxdigit b'Q'
        ≡ (ascii_isdigit b'Q' || leb b'a' (ascii_tolower b'Q') && leb (ascii_tolower b'Q') b'f'))
    × (ascii_tolower b'Q' ≡ ((if ascii_isupper b'Q' then b'Q' + 32 else b'Q')))
    × (ascii_toupper b'Q' ≡ ((if ascii_islower b'Q' then b'Q' - 32 else b'Q')))
ascii_tables_example = ascii_tables b'Q' (omega arith)
