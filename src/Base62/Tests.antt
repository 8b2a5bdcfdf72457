-- ===== src/Base62/Tests.antt =====
-- Codes at concrete numbers.
use nest_shortlink_platform.Common.{◌≡◌, refl, arith}
use nest_shortlink_platform.Common.Text.{codes}
use nest_shortlink_platform.Common.Int.{pos, negsuc}
use nest_shortlink_platform.Base62.{
  ok, err, negative, empty, invalid_character, index_of, char_at, encode_loop, decode_loop,
  encode_base62, decode_base62, ◌>>=◌,
}
use nest_shortlink_platform.Base62.RoundTrip.{base62_inverse}

runs : Unit {0}
unfolding encode_base62 encode_loop decode_base62 decode_loop index_of char_at
runs = tt

encoded :
    (encode_base62 (pos 123456) ≡ ok (codes "W7E"))
    × (encode_base62 (pos 0) ≡ ok (codes "0"))
    × (encode_base62 (negsuc 0) ≡ err negative)
unfolding runs
encoded = (refl, refl, refl)

decoded :
    (decode_base62 (codes "W7E") ≡ ok 123456)
    × (decode_base62 (codes "0zz") ≡ ok 3843)
    × (decode_base62 (codes "a-b") ≡ err (invalid_character b'-'))
    × (decode_base62 (codes "") ≡ err empty)
unfolding runs
decoded = (refl, refl, refl, refl)

base62_inverse_example :
    ((encode_base62 (pos 3844) >>= decode_base62) ≡ ok 3844)
    × (encode_base62 (pos 123456) ≡ ok (codes "W7E"))
base62_inverse_example = base62_inverse 3844 (codes "W7E") 123456 (omega arith) decoded.0
