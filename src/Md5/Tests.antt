-- ===== src/Md5/Tests.antt =====
-- Runs of MD5.
use cpp_base.Bytes.{Bytes}
use cpp_base.Md5.Reference.{md5_reference}
use cpp_base.Md5.Digest.{md5-refines, joined}
use cpp_base.Prelude.{◌≡◌, refl, arith, [], ◌∷◌, replicate, ok, ◌>>=◌}
use cpp_base.Md5.{Md5, init, md5_finalize, as_hex_digest, update_all, as_raw_byte_array}

abbrev junk : Bytes
junk = replicate 64 170

-- The digest of "abc".
abc_digest :
    (update_all (init junk []) ((b'a' ∷ []) ∷ (b'b' ∷ b'c' ∷ []) ∷ []) >>= λ m.
    md5_finalize m >>= λ n. ok (as_hex_digest n))
    ≡ ok (
        b'9' ∷ b'0' ∷ b'0' ∷ b'1' ∷ b'5' ∷ b'0' ∷ b'9' ∷ b'8' ∷ b'3' ∷ b'c' ∷ b'd' ∷ b'2' ∷ b'4'
        ∷ b'f' ∷ b'b' ∷ b'0' ∷ b'd' ∷ b'6' ∷ b'9' ∷ b'6' ∷ b'3' ∷ b'f' ∷ b'7' ∷ b'd' ∷ b'2' ∷ b'8'
        ∷ b'e' ∷ b'1' ∷ b'7' ∷ b'f' ∷ b'7' ∷ b'2' ∷ [])
unfolding update_all md5_finalize as_hex_digest init
abc_digest = refl

md5-refines_example :
    (m : Md5) × (m' : Md5) × (update_all (init junk []) ((b'a' ∷ []) ∷ (b'b' ∷ b'c' ∷ []) ∷ [])
      ≡ ok m)
    × (md5_finalize m ≡ ok m')
    × (as_raw_byte_array m' ≡ ok (md5_reference (b'a' ∷ b'b' ∷ b'c' ∷ [])))
unfolding joined
md5-refines_example =
    md5-refines junk [] ((b'a' ∷ []) ∷ (b'b' ∷ b'c' ∷ []) ∷ []) refl
      (omega arith, (omega arith, tt))
