-- ===== src/Base64/Encoding.antt =====
-- The encoding of RFC 4648 with padding, as the description that the decoder is held to.
use nermalproxy.Prelude.{
  ℕ, ◌+◌, ◌-◌, ◌*◌, ◌/◌, ◌%◌, ◌<◌, ◌≡◌, [], ◌∷◌, some, arith, ltb, if◌then◌else◌, All,
}
use nermalproxy.CText.{Bytes}
use nermalproxy.Base64.{sextet_value}

-- The character for a value below 64.
unfoldable pub sextet_char : ℕ → ℕ
sextet_char v =
    if ltb v 26
    then v + b'A'
    else if ltb v 52
    then v - 26 + b'a'
    else if ltb v 62
    then v - 52 + b'0'
    else if ltb v 63
    then b'+'
    else b'/'

pub sextet_value-sextet_char : (v : ℕ) → v < 64 → sextet_value (sextet_char v) ≡ some v
unfolding sextet_value sextet_char
sextet_value-sextet_char v h = ground arith

unfoldable pub encode : Bytes → Bytes
encode [] = []
encode (a ∷ []) = sextet_char (a / 4) ∷ sextet_char (a % 4 * 16) ∷ b'=' ∷ b'=' ∷ []
encode (a ∷ b ∷ []) =
    sextet_char (a / 4) ∷ sextet_char (a % 4 * 16 + b / 16) ∷ sextet_char (b % 16 * 4) ∷ b'=' ∷ []
encode (a ∷ b ∷ c ∷ s) =
    sextet_char (a / 4)
    ∷ sextet_char (a % 4 * 16 + b / 16)
    ∷ sextet_char (b % 16 * 4 + c / 64)
    ∷ sextet_char (c % 64)
    ∷ encode s

-- Every number is a byte.
abbrev pub IsBytes : Bytes → Type 0
IsBytes = All (λ c. c < 256)
