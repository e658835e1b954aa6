-- ===== src/Uri/Tests.antt =====
-- Runs of the codec and the parameters, and each theorem at an input.
use cpp_base.Bytes.{Bytes, bytes_eq}
use cpp_base.Prelude.{arith, List, ◌≡◌, refl, [], ◌∷◌, ◌++◌, ok, thrown}
use cpp_base.Uri.{
  is_plain, Param, url_encode, url_decode, parse_query_string, assemble_params, set_param,
  get_param, is_empty,
}
use cpp_base.Uri.Codec.{readings, url_decode-url_encode, url_decode-url_encode_ascii}
use cpp_base.Uri.Query.{parse_query_string-assemble_params}
use cpp_base.Uri.Params.{get_param-set_param}

abbrev a : Bytes
a = b'a' ∷ []

-- "a +%="
abbrev text : Bytes
text = b'a' ∷ b' ' ∷ b'+' ∷ b'%' ∷ b'=' ∷ []

abbrev pa : Param
pa = record { key = a; value = text }

abbrev pb : Param
pb = record { key = text; value = [] }

encode_run :
    url_encode text
    ≡ a ++ (b'%' ∷ b'2' ∷ b'0' ∷ b'%' ∷ b'2' ∷ b'b' ∷ b'%' ∷ b'2' ∷ b'5' ∷ b'%' ∷ b'3' ∷ b'd' ∷ [])
unfolding url_encode
encode_run = refl

decode_short : url_decode (b'a' ∷ b'%' ∷ b'2' ∷ []) ≡ ok []
unfolding url_decode
decode_short = refl

decode_invalid : url_decode (b'%' ∷ b'g' ∷ b'g' ∷ []) ≡ thrown
unfolding url_decode
decode_invalid = refl

empty_key :
    parse_query_string (b'a' ∷ b'=' ∷ b'a' ∷ b'&' ∷ b'=' ∷ b'a' ∷ [])
    ≡ ok (record { key = a; value = a } ∷ [])
unfolding parse_query_string
empty_key = refl

url_decode-url_encode_example :
    url_decode (url_encode (200 ∷ [])) ≡ ok (255 ∷ b'f' ∷ b'f' ∷ b'f' ∷ b'f' ∷ b'c' ∷ b'8' ∷ [])
unfolding readings is_plain
url_decode-url_encode_example = url_decode-url_encode (200 ∷ []) (omega arith, tt)

url_decode-url_encode_ascii_example :
    url_decode (url_encode (b'a' ∷ b'+' ∷ [])) ≡ ok (b'a' ∷ b'+' ∷ [])
url_decode-url_encode_ascii_example =
    url_decode-url_encode_ascii (b'a' ∷ b'+' ∷ []) (omega arith, (omega arith, tt))

abbrev written : List Param
written = record { key = a; value = b'=' ∷ [] } ∷ record { key = a; value = a } ∷ []

parse_query_string-assemble_params_example :
    parse_query_string (assemble_params written) ≡ ok written
unfolding is_empty
parse_query_string-assemble_params_example = parse_query_string-assemble_params written (
  (refl, (omega arith, tt), (omega arith, tt)),
  ((refl, (omega arith, tt), (omega arith, tt)), tt),
)

get_param-set_param_example : get_param (set_param (pb ∷ pa ∷ []) a a) a ≡ a
unfolding bytes_eq
get_param-set_param_example = get_param-set_param (pb ∷ pa ∷ []) a a a
