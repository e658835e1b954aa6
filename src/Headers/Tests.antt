-- ===== src/Headers/Tests.antt =====
-- Runs of the headers, and each theorem at an input.
use cpp_base.Bytes.{Bytes, bytes_eq}
use cpp_base.Prelude.{◌≡◌, refl, true, some, List, [], ◌∷◌, ok, undefined}
use cpp_base.Headers.{Header, set_header, get_header, header_exists, remove_header}
use cpp_base.Headers.Remove.{removed, remove_header_lem, remove_header_keeps}
use cpp_base.Headers.Lookup.{get_header-set_header}

abbrev a : Bytes
a = b'a' ∷ []

abbrev b : Bytes
b = b'b' ∷ []

abbrev ha : Header
ha = record { name = a; value = b'1' ∷ [] }

abbrev hb : Header
hb = record { name = b; value = b'2' ∷ [] }

remove_only : remove_header (ha ∷ []) a ≡ some undefined
unfolding remove_header
remove_only = refl

remove_late : remove_header (hb ∷ ha ∷ hb ∷ ha ∷ []) a ≡ some (ok (hb ∷ hb ∷ []))
unfolding remove_header
remove_late = refl

remove_header_lem_example :
    remove_header (ha ∷ ha ∷ ha ∷ hb ∷ []) a ≡ some (removed (ha ∷ ha ∷ ha ∷ hb ∷ []) a)
remove_header_lem_example = remove_header_lem (ha ∷ ha ∷ ha ∷ hb ∷ []) a

remove_header_keeps_example :
    (rest : List Header) × (remove_header (ha ∷ ha ∷ ha ∷ hb ∷ []) a ≡ some (ok rest))
    × (header_exists rest a ≡ true)
unfolding bytes_eq
remove_header_keeps_example = remove_header_keeps ha ha (ha ∷ hb ∷ []) a refl refl

get_header-set_header_example : get_header (set_header (hb ∷ ha ∷ []) a b) a ≡ b
unfolding bytes_eq
get_header-set_header_example = get_header-set_header (hb ∷ ha ∷ []) a a b
