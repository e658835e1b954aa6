-- ===== src/Headers/Lookup.antt =====
-- What is found among the headers (http/http_headers.h) after SetHeader and AddHeader.
use cpp_base.Bytes.{Bytes, bytes_eq, bytes_eq_iff, bytes_eq_refl}
use cpp_base.Prelude.{
  ◌≡◌, refl, true, List, [], ◌∷◌, ◌++◌, arith, if◌then◌else◌, inl, inr, ok, Option-cases,
}
use cpp_base.Headers.{
  Header, add_header, replace_first, set_header, append_last_header, header_exists, get_header,
  get_header_values,
}

set_header_step :
    (h : Header) (l : List Header) (name value : Bytes)
    → set_header (h ∷ l) name value ≡ (
        if bytes_eq h.name name
        then record h { value = value } ∷ l
        else h ∷ set_header l name value)
unfolding set_header
set_header_step h l name value = elim (Option-cases (replace_first l name value)) [
  | inl e ↦ ground (arith, e)
  | inr (r, e) ↦ ground (arith, e)
]

-- After SetHeader, GetHeader gives the new value for the name, and for every other name what it
-- gave before.
pub get_header-set_header :
    (l : List Header) (name other value : Bytes)
    → get_header (set_header l name value) other
      ≡ (if bytes_eq name other then value else get_header l other)
unfolding get_header
get_header-set_header [] name other value = unfold set_header in refl
get_header-set_header (h ∷ l) name other value = rw set_header_step (
    ground (
      arith,
      get_header-set_header l name other value,
      bytes_eq_iff h.name name,
      bytes_eq_iff h.name other,
      bytes_eq_iff name other,
    ))

-- After SetHeader, a name is there if it is the one that was set, or was there before.
pub header_exists-set_header :
    (l : List Header) (name other value : Bytes)
    → header_exists (set_header l name value) other
      ≡ (if bytes_eq name other then true else header_exists l other)
unfolding header_exists
header_exists-set_header [] name other value = unfold set_header in refl
header_exists-set_header (h ∷ l) name other value = rw set_header_step (
    ground (
      arith,
      header_exists-set_header l name other value,
      bytes_eq_iff h.name name,
      bytes_eq_iff h.name other,
      bytes_eq_iff name other,
    ))

abbrev pub with_first : Bytes → List Bytes → List Bytes
with_first value [] = value ∷ []
with_first value (v ∷ vs) = value ∷ vs

-- SetHeader changes the first of the values of its name, or adds one where there is none.
pub get_header_values-set_header :
    (l : List Header) (name value : Bytes)
    → get_header_values (set_header l name value) name ≡ with_first value (get_header_values l name)
unfolding get_header_values
get_header_values-set_header [] name value = unfold set_header in rw (bytes_eq_refl name)
get_header_values-set_header (h ∷ l) name value =
    rw set_header_step (ground (arith, get_header_values-set_header l name value))

-- AddHeader puts a value behind those of its name, and leaves those of every other name.
pub get_header_values-add_header :
    (l : List Header) (name other value : Bytes)
    → get_header_values (add_header l name value) other
      ≡ get_header_values l other ++ (if bytes_eq name other then value ∷ [] else [])
unfolding get_header_values add_header
get_header_values-add_header [] name other value = ground arith
get_header_values-add_header (h ∷ l) name other value =
    ground (arith, get_header_values-add_header l name other value)

-- AppendLastHeader changes the value of the header added last.
pub append_last-add_header :
    (l : List Header) (name value more : Bytes)
    → append_last_header (add_header l name value) more ≡ ok (add_header l name (value ++ more))
unfolding append_last_header add_header
append_last-add_header [] name value more = refl
append_last-add_header (h ∷ []) name value more = refl
append_last-add_header (h ∷ g ∷ l) name value more =
    ground (arith, append_last-add_header (g ∷ l) name value more)
