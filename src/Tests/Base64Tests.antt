-- ===== src/Tests/Base64Tests.antt =====
-- Base64Decode of UserAuth.cpp at concrete texts.
use nermalproxy.Prelude.{
  suc, ℕ, ◌+◌, ◌*◌, ◌≤◌, ◌≡◌, refl, ◌++◌, none, some, arith, length, replicate,
}
use nermalproxy.Base64.{base64_decode, decode_loop, take_char, sextet_value, allocated}
use nermalproxy.Base64.Bounds.{decode_bounds}
use nermalproxy.Base64.Encoding.{encode, sextet_char}
use nermalproxy.Base64.RoundTrip.{decode-encode}
use nermalproxy.CText.{codes}

program : Unit {0}
unfolding base64_decode decode_loop take_char sextet_value encode sextet_char
program = tt

encode_test : encode (codes "user1:pass1") ≡ codes "dXNlcjE6cGFzczE="
unfolding program
encode_test = refl

decode_test : base64_decode (codes "dTpw") ≡ some (codes "u:p" ++ replicate 3 0, 3)
unfolding program
decode_test = refl

decode_bad_char : base64_decode (codes "dT*w") ≡ none
unfolding program
decode_bad_char = refl

decode_bad_length : base64_decode (codes "dTpwd") ≡ none
unfolding program
decode_bad_length = refl

decode-encode_example :
    (size zeros : ℕ) × (base64_decode (encode (codes "u:p"))
      ≡ some (codes "u:p" ++ replicate (suc (suc (suc zeros))) 0, size))
    × (length (codes "u:p") ≤ size)
    × (size ≤ length (codes "u:p") + 2)
decode-encode_example = decode-encode (codes "u:p") (omega arith)

decode_bounds_example : (3 * 4 ≤ 4 * 3) × (3 + 3 ≤ allocated 4) × (◌≡◌ {A = ℕ} 6 (allocated 4))
decode_bounds_example = decode_bounds (codes "dTpw") (codes "u:p" ++ replicate 3 0) 3 decode_test
