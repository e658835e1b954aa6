-- ===== src/Uri/Params.antt =====
-- What GetParam finds after SetParam and AddParam (http/uri.cc).
use cpp_base.Bytes.{Bytes, bytes_eq, bytes_eq_iff}
use cpp_base.Prelude.{◌≡◌, refl, Bool, false, List, [], ◌∷◌, arith, if◌then◌else◌, ◌||◌}
use cpp_base.Uri.{Param, add_param, set_param, get_param}

-- After SetParam, GetParam gives the new value for the key, and for every other key what it gave
-- before.
pub get_param-set_param :
    (l : List Param) (key other value : Bytes)
    → get_param (set_param l key value) other
      ≡ (if bytes_eq key other then value else get_param l other)
unfolding get_param set_param
get_param-set_param [] key other value = refl
get_param-set_param (p ∷ l) key other value = ground (
  arith,
  get_param-set_param l key other value,
  bytes_eq_iff p.key key,
  bytes_eq_iff p.key other,
  bytes_eq_iff key other,
)

unfoldable pub has_key : List Param → Bytes → Bool
unfolding bytes_eq
has_key [] key = false
has_key (p ∷ l) key = bytes_eq p.key key || has_key l key

-- AddParam changes what GetParam finds only for its own key, and only where the key was not there.
pub get_param-add_param :
    (l : List Param) (key other value : Bytes)
    → get_param (add_param l key value) other
      ≡ (if has_key l other then get_param l other else if bytes_eq key other then value else [])
unfolding get_param add_param has_key
get_param-add_param [] key other value = refl
get_param-add_param (p ∷ l) key other value = ground (arith, get_param-add_param l key other value)
