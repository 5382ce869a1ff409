-- ===== src/Base64.antt =====
-- `AuthManager::Base64Decode` of UserAuth.cpp. Lengths stay below the range of `int`.
pub mod Encoding
pub mod Steps
pub mod RoundTrip
pub mod Bounds
use nermalproxy.Prelude.{
  ℕ, suc, ◌+◌, ◌-◌, ◌*◌, ◌/◌, ◌%◌, ◌^◌, Bool, true, false, ◌&&◌, List, [], ◌∷◌, ◌++◌, Option, none,
  some, leb, ◌==◌, not, if◌then◌else◌, length, replicate, bit_or, bit_and,
}
use nermalproxy.CText.{Bytes}

abbrev within : ℕ → ℕ → ℕ → Bool
within lo hi c = leb lo c && leb c hi

-- The value of a character other than `=`; `none` is the invalid character.
unfoldable pub sextet_value : ℕ → Option ℕ
sextet_value c =
    if within b'A' b'Z' c
    then some (c - b'A')
    else if within b'a' b'z' c
    then some (c - b'a' + 26)
    else if within b'0' b'9' c
    then some (c - b'0' + 52)
    else if c == b'+'
    then some 62
    else if c == b'/'
    then some 63
    else none

-- `tmp` after the character `in`: the pad character leaves it alone.
unfoldable pub take_char : ℕ → ℕ → Option ℕ
take_char c tmp =
    if not (c == b'=')
    then elim (sextet_value c) [ none ↦ none | some v ↦ some (bit_or tmp (bit_and v 0x3f)) ]
    else some tmp

-- The three bytes of a full group.
abbrev pub group_bytes : ℕ → Bytes
group_bytes tmp = tmp / 2 ^ 16 % 256 ∷ tmp / 2 ^ 8 % 256 ∷ tmp % 256 ∷ []

-- The loop, with the characters not yet read: `idx`, `tmp`, and the bytes written so far. It
-- gives the last `idx` and all bytes written.
unfoldable pub decode_loop : Bytes → ℕ → ℕ → Bytes → Option (ℕ × Bytes)
decode_loop [] idx tmp dst = some (idx, dst)
decode_loop (c ∷ cs) idx tmp dst = elim (c == 0) [
  | true ↦ some (idx, dst)
  | false ↦ elim (take_char c tmp) [
    | none ↦ none
    | some t ↦ elim (suc idx % 4 == 0) [
      | true ↦ decode_loop cs (suc idx) 0 (dst ++ group_bytes t)
      | false ↦ decode_loop cs (suc idx) (t * 64 % 2 ^ 32) dst
    ]
  ]
]

-- The bytes allocated for a text of this length.
abbrev pub allocated : ℕ → ℕ
allocated n = (n * 3 + 3) / 4 + 3

-- The zeroed buffer with what was written into it.
abbrev pub buffer : ℕ → Bytes → Bytes
buffer n dst = dst ++ replicate (allocated n - length dst) 0

abbrev pub finish : ℕ → Option (ℕ × Bytes) → Option (Bytes × ℕ)
finish n none = none
finish n (some (idx, dst)) = if not (idx % 4 == 0) then none else some (buffer n dst, length dst)

-- The buffer and the size; `none` is the null pointer.
unfoldable pub base64_decode : Bytes → Option (Bytes × ℕ)
base64_decode source = finish (length source) (decode_loop source 0 0 [])
