-- ===== src/Headers.antt =====
-- The header list of http/http_headers.h: names and values in the order in which they were added.
pub mod Loop
pub mod Remove
pub mod Lookup
mod Tests
use cpp_base.Bytes.{Bytes, bytes_eq}
use cpp_base.Prelude.{
  ℕ, zero, suc, ◌+◌, ◌*◌, Bool, true, false, Option, none, some, List, [], ◌∷◌, ◌++◌, length,
  get_elem?, Outcome, ok, undefined, ◌==◌, if◌then◌else◌,
}

pub record Header : Type 0 where
  pub name : Bytes
  pub value : Bytes

unfoldable pub add_header : List Header → Bytes → Bytes → List Header
add_header headers name value = headers ++ (record { name = name; value = value } ∷ [])

-- The loop of SetHeader: none where no header has the name.
unfoldable pub replace_first : List Header → Bytes → Bytes → Option (List Header)
unfolding bytes_eq
replace_first [] name value = none
replace_first (h ∷ headers) name value =
    let rest = replace_first headers name value in
    if bytes_eq h.name name
    then some (record h { value = value } ∷ headers)
    else elim rest [ none ↦ none | some r ↦ some (h ∷ r) ]

unfoldable pub set_header : List Header → Bytes → Bytes → List Header
unfolding replace_first add_header
set_header headers name value = elim (replace_first headers name value) [
  | none ↦ add_header headers name value
  | some r ↦ r
]

-- `back` and `pop_back` of an empty vector are undefined.
unfoldable pub append_last_header : List Header → Bytes → Outcome (List Header)
append_last_header [] more = undefined
append_last_header (h ∷ []) more = ok (record h { value = h.value ++ more } ∷ [])
append_last_header (h ∷ g ∷ headers) more = elim (append_last_header (g ∷ headers) more) [
  | ok r ↦ ok (h ∷ r)
  | other ↦ other
]

unfoldable pub header_exists : List Header → Bytes → Bool
unfolding bytes_eq
header_exists [] name = false
header_exists (h ∷ headers) name = if bytes_eq h.name name then true else header_exists headers name

unfoldable pub get_header : List Header → Bytes → Bytes
unfolding bytes_eq
get_header [] name = []
get_header (h ∷ headers) name = if bytes_eq h.name name then h.value else get_header headers name

unfoldable pub get_header_values : List Header → Bytes → List Bytes
unfolding bytes_eq
get_header_values [] name = []
get_header_values (h ∷ headers) name =
    let rest = get_header_values headers name in
    if bytes_eq h.name name then h.value ∷ rest else rest

-- `headers_.erase(i)`
unfoldable pub erase_at : List Header → ℕ → List Header
erase_at [] i = []
erase_at (h ∷ headers) zero = headers
erase_at (h ∷ headers) (suc i) = h ∷ erase_at headers i

-- The loop of RemoveHeader, `i` the place of the iterator. After an erasure the iterator is set to
-- the begin, and the `++i` of the loop still runs: the next header looked at is the second. An
-- iterator past the end is not the end, and to follow it is undefined. None: out of fuel.
unfoldable pub remove_loop : ℕ → Bytes → ℕ → List Header → Option (Outcome (List Header))
unfolding bytes_eq erase_at
remove_loop zero name i headers = none
remove_loop (suc fuel) name i headers = elim (i == length headers) [
  | true ↦ some (ok headers)
  | false ↦ elim (get_elem? headers i) [
    | none ↦ some undefined
    | some h ↦ elim (bytes_eq h.name name) [
      | true ↦ remove_loop fuel name 1 (erase_at headers i)
      | false ↦ remove_loop fuel name (i + 1) headers
    ]
  ]
]

-- Each header is looked at once after each erasure, so the square of the number is enough fuel.
unfoldable pub remove_header : List Header → Bytes → Option (Outcome (List Header))
unfolding remove_loop
remove_header headers name =
    remove_loop ((length headers + 1) * (length headers + 1)) name 0 headers
