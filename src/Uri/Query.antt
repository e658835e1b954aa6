-- ===== src/Uri/Query.antt =====
-- ParseQueryString on the parameters that Assemble writes (http/uri.cc).
use cpp_base.Prelude.{
  ℕ, ◌/◌, ◌%◌, ◌<◌, ◌≡◌, refl, Bool, true, false, not, ◌&&◌, List, [], ◌∷◌, ◌++◌, arith, ltb, ◌==◌,
  ok, All, ap, ◌∙◌, sym, Bool-cases, inl, inr, append_assoc, append-nil,
}
use cpp_base.Bytes.{Bytes}
use cpp_base.Uri.{
  Param, hex_digit, is_plain, url_encode, decode_param, is_empty, parse_from, parse_query_string,
  assemble_params,
}
use cpp_base.Uri.Hex.{
  printed, print_02x-printed, high_digit, low_digit, is_safe, digit_safe, plain_safe,
}
use cpp_base.Uri.Codec.{url_decode-url_encode_ascii, ascii_bytes}

-- Neither `=` nor `&`.
abbrev is_inner : ℕ → Bool
is_inner c = not (c == b'=') && not (c == b'&')

abbrev AllInner : Bytes → Type 0
AllInner s = All (λ c. is_inner c ≡ true) s

inner_safe : (c : ℕ) → is_safe c ≡ true → is_inner c ≡ true
inner_safe c h = ground arith

AllInner-append : (s t : Bytes) → AllInner s → AllInner t → AllInner (s ++ t)
AllInner-append [] t h k = k
AllInner-append (c ∷ s) t (h, hs) k = (h, AllInner-append s t hs k)

printed_inner : (c : ℕ) → c < 256 → AllInner (printed c)
unfolding printed hex_digit
printed_inner c h =
    let high = inner_safe (high_digit c) (digit_safe (c / 16) (omega arith)) in
    let low = inner_safe (low_digit c) (digit_safe (c % 16) (omega arith)) in
    elim (Bool-cases (ltb c 128)) [
      | inl e ↦ rw (e, printed) (high, (low, tt))
      | inr e ↦ rw (e, printed) (refl, (refl, (refl, (refl, (refl, (refl, (high, (low, tt))))))))
    ]

url_encode_inner : (s : Bytes) → All (λ c. c < 256) s → AllInner (url_encode s)
unfolding url_encode
url_encode_inner [] h = tt
url_encode_inner (c ∷ s) (h, hs) = elim (Bool-cases (is_plain c)) [
  | inl e ↦ rw e (inner_safe c (plain_safe c e), url_encode_inner s hs)
  | inr e ↦
      rw (e, print_02x-printed c h)
        (
          refl,
          AllInner-append (printed c) (url_encode s) (printed_inner c h) (url_encode_inner s hs),
        )
]

inner_equals : (c : ℕ) → is_inner c ≡ true → (c == b'=') ≡ false
inner_equals c h = ground arith

inner_and : (c : ℕ) → is_inner c ≡ true → (c == b'&') ≡ false
inner_and c h = ground arith

parse-key :
    (s rest key value : Bytes) (params : List Param)
    → AllInner s
    → parse_from false key value params (s ++ rest) ≡ parse_from false (key ++ s) value params rest
unfolding parse_from
parse-key [] rest key value params h =
    ap (λ k. parse_from false k value params rest) (sym (append-nil key))
parse-key (c ∷ s) rest key value params (h, hs) =
    rw (inner_equals c h, parse_from)
      (parse-key s rest (key ++ (c ∷ [])) value params hs
        ∙ ap (λ k. parse_from false k value params rest) (append_assoc key (c ∷ []) s))

parse-value :
    (s rest key value : Bytes) (params : List Param)
    → AllInner s
    → parse_from true key value params (s ++ rest) ≡ parse_from true key (value ++ s) params rest
unfolding parse_from
parse-value [] rest key value params h =
    ap (λ v. parse_from true key v params rest) (sym (append-nil value))
parse-value (c ∷ s) rest key value params (h, hs) =
    rw (inner_and c h, parse_from)
      (parse-value s rest key (value ++ (c ∷ [])) params hs
        ∙ ap (λ v. parse_from true key v params rest) (append_assoc value (c ∷ []) s))

-- A parameter of bytes below 128 whose key is not empty.
abbrev pub IsPlainParam : Param → Type 0
IsPlainParam p = (is_empty p.key ≡ false) × All (λ c. c < 128) p.key × All (λ c. c < 128) p.value

url_encode_empty : (s : Bytes) → is_empty (url_encode s) ≡ is_empty s
unfolding is_empty url_encode
url_encode_empty [] = refl
url_encode_empty (c ∷ s) = elim (Bool-cases (is_plain c)) [ inl e ↦ rw e refl | inr e ↦ rw e refl ]

decode-encoded :
    (p : Param) → IsPlainParam p → decode_param (url_encode p.key) (url_encode p.value) ≡ ok p
unfolding decode_param
decode-encoded p (n, h, k) =
    rw (url_decode-url_encode_ascii p.key h, url_decode-url_encode_ascii p.value k) refl

encoded_inner : (s : Bytes) → All (λ c. c < 128) s → AllInner (url_encode s)
encoded_inner s h = url_encode_inner s (ascii_bytes s h)

key_kept : (p : Param) → IsPlainParam p → is_empty (url_encode p.key) ≡ false
key_kept p h = url_encode_empty p.key ∙ h.0

parse-equals :
    (key rest : Bytes) (params : List Param)
    → is_empty key ≡ false
    → parse_from false key [] params (b'=' ∷ rest) ≡ parse_from true key [] params rest
unfolding parse_from
parse-equals key rest params n = rw (n, parse_from) refl

parse-param :
    (p : Param) (rest : Bytes) (params : List Param)
    → IsPlainParam p
    → parse_from false [] [] params (url_encode p.key ++ (b'=' ∷ (url_encode p.value ++ rest)))
      ≡ parse_from true (url_encode p.key) (url_encode p.value) params rest
parse-param p rest params (n, h, k) =
    parse-key (url_encode p.key) _ [] [] params (encoded_inner p.key h)
    ∙ parse-equals (url_encode p.key) _ params (key_kept p (n, h, k))
    ∙ parse-value (url_encode p.value) rest (url_encode p.key) [] params (encoded_inner p.value k)

parse-last :
    (p : Param) (params : List Param)
    → IsPlainParam p
    → parse_from false [] [] params (assemble_params (p ∷ [])) ≡ ok (params ++ (p ∷ []))
unfolding assemble_params parse_from
parse-last p params h =
    ap (λ t. parse_from false [] [] params (url_encode p.key ++ (b'=' ∷ t)))
      (sym (append-nil (url_encode p.value)))
    ∙ parse-param p [] params h
    ∙ rw (key_kept p h, decode-encoded p h) refl

parse-next :
    (p : Param) (rest : Bytes) (params : List Param)
    → IsPlainParam p
    → parse_from true (url_encode p.key) (url_encode p.value) params (b'&' ∷ rest)
      ≡ parse_from false [] [] (params ++ (p ∷ [])) rest
unfolding parse_from
parse-next p rest params h = rw (decode-encoded p h) refl

parse-assembled :
    (ps params : List Param)
    → All IsPlainParam ps
    → parse_from false [] [] params (assemble_params ps) ≡ ok (params ++ ps)
unfolding assemble_params
parse-assembled [] params h = unfold parse_from is_empty in ap ok (sym (append-nil params))
parse-assembled (p ∷ []) params (h, hs) = parse-last p params h
parse-assembled (p ∷ q ∷ ps) params (h, hs) =
    parse-param p (b'&' ∷ assemble_params (q ∷ ps)) params h
    ∙ parse-next p (assemble_params (q ∷ ps)) params h
    ∙ parse-assembled (q ∷ ps) (params ++ (p ∷ [])) hs
    ∙ ap ok (append_assoc params (p ∷ []) (q ∷ ps))

-- ParseQueryString gives back the parameters that Assemble wrote, in their order, where every key
-- is not empty and every byte of the keys and values is below 128.
pub parse_query_string-assemble_params :
    (ps : List Param) → All IsPlainParam ps → parse_query_string (assemble_params ps) ≡ ok ps
unfolding parse_query_string
parse_query_string-assemble_params ps h = parse-assembled ps [] h
