-- ===== src/Base64/RoundTrip.antt =====
-- Decoding gives back what was encoded.
use nermalproxy.Prelude.{
  ℕ, zero, suc, ◌+◌, ◌-◌, ◌*◌, ◌/◌, ◌%◌, ◌≤◌, ◌<◌, ◌≡◌, refl, sym, ap, ap₂, ◌∙◌, [], ◌∷◌, ◌++◌,
  some, arith, length, replicate, append_assoc, append-nil, ==_iff,
}
use native.Mathlib.Nat.{zero-add, suc-add}
use nermalproxy.CText.{Bytes}
use nermalproxy.Base64.{group_bytes, decode_loop, allocated, buffer, finish, base64_decode}
use nermalproxy.Base64.Encoding.{encode, IsBytes}
use nermalproxy.Base64.Steps.{loop_group, loop_pad, loop_pad_two}

-- The text filled up with zeros to a multiple of three.
abbrev padded : Bytes → Bytes
padded [] = []
padded (a ∷ []) = a ∷ 0 ∷ 0 ∷ []
padded (a ∷ b ∷ []) = a ∷ b ∷ 0 ∷ []
padded (a ∷ b ∷ c ∷ s) = a ∷ b ∷ c ∷ padded s

group_three :
    (a b c : ℕ)
    → a < 256
    → b < 256
    → c < 256
    → group_bytes
        (((a / 4 * 64 + (a % 4 * 16 + b / 16)) * 64 + (b % 16 * 4 + c / 64)) * 64 + c % 64)
      ≡ a ∷ b ∷ c ∷ []
group_three a b c p q r = ground arith

group_two :
    (a b : ℕ)
    → a < 256
    → b < 256
    → group_bytes (((a / 4 * 64 + (a % 4 * 16 + b / 16)) * 64 + b % 16 * 4) * 64) ≡ a ∷ b ∷ 0 ∷ []
group_two a b p q = ground arith

group_one : (a : ℕ) → a < 256 → group_bytes ((a / 4 * 64 + a % 4 * 16) * 64 * 64) ≡ a ∷ 0 ∷ 0 ∷ []
group_one a p = ground arith

loop-encode :
    (s : Bytes) (idx : ℕ) (dst : Bytes)
    → IsBytes s
    → idx % 4 ≡ 0
    → decode_loop (encode s) idx 0 dst ≡ some (idx + length (encode s), dst ++ padded s)
unfolding encode
loop-encode [] idx dst h i =
    unfold decode_loop in ap₂ (λ k d. some (k, d)) (omega arith) (sym (append-nil dst))
loop-encode (a ∷ []) idx dst h i =
    loop_pad_two (a / 4) (a % 4 * 16) idx dst (omega arith) (omega arith) i
    ∙ ground (arith, group_one a h.0)
loop-encode (a ∷ b ∷ []) idx dst h i =
    loop_pad (a / 4) (a % 4 * 16 + b / 16) (b % 16 * 4) idx dst (omega arith) (omega arith)
      (omega arith) i
    ∙ ground (arith, group_two a b h.0 h.1.0)
loop-encode (a ∷ b ∷ c ∷ s) idx dst h i =
    let step =
      loop_group (a / 4) (a % 4 * 16 + b / 16) (b % 16 * 4 + c / 64) (c % 64) idx (encode s) dst
        (omega arith) (omega arith) (omega arith) (omega arith) i in
    rw (group_three a b c h.0 h.1.0 h.1.1.0) at step
    ∙ loop-encode s (idx + 4) (dst ++ a ∷ b ∷ c ∷ []) h.1.1.1 (omega arith)
    ∙ ap₂ (λ k d. some (k, d)) (omega arith) (append_assoc dst (a ∷ b ∷ c ∷ []) (padded s))

pad_count : Bytes → ℕ
pad_count [] = 0
pad_count (a ∷ []) = 2
pad_count (a ∷ b ∷ []) = 1
pad_count (a ∷ b ∷ c ∷ s) = pad_count s

padded-zeros : (s : Bytes) → padded s ≡ s ++ replicate (pad_count s) 0
unfolding pad_count
padded-zeros [] = refl
padded-zeros (a ∷ []) = refl
padded-zeros (a ∷ b ∷ []) = refl
padded-zeros (a ∷ b ∷ c ∷ s) = ap (λ r. a ∷ b ∷ c ∷ r) (padded-zeros s)

length-padded :
    (s : Bytes)
    → (length (padded s) ≡ length s + pad_count s)
      × (pad_count s < 3)
      × (length (padded s) * 4 ≡ length (encode s) * 3)
      × (length (encode s) % 4 ≡ 0)
unfolding pad_count encode
length-padded [] = omega arith
length-padded (a ∷ []) = omega arith
length-padded (a ∷ b ∷ []) = omega arith
length-padded (a ∷ b ∷ c ∷ s) = let ih = length-padded s in omega arith

replicate-append : (m n : ℕ) → replicate m 0 ++ replicate n 0 ≡ replicate {A = ℕ} (m + n) 0
replicate-append zero n = rw zero-add
replicate-append (suc m) n = rw suc-add (ap (◌∷◌ 0) (replicate-append m n))

finish_done :
    (n idx : ℕ) (dst : Bytes)
    → idx % 4 ≡ 0
    → finish n (some (idx, dst)) ≡ some (buffer n dst, length dst)
finish_done n idx dst h = rw ((==_iff _ _).1 h)

buffer-padded :
    (s : Bytes) (n k : ℕ)
    → k ≡ pad_count s + (allocated n - length (padded s))
    → buffer n (padded s) ≡ s ++ replicate k 0
buffer-padded s n k e =
    ap (λ t. t ++ replicate (allocated n - length (padded s)) 0) (padded-zeros s)
    ∙ append_assoc s (replicate (pad_count s) 0) (replicate (allocated n - length (padded s)) 0)
    ∙ ap (◌++◌ s) (
        replicate-append (pad_count s) (allocated n - length (padded s))
        ∙ ap (λ j. replicate j 0) (sym e))

-- A text of bytes that was encoded by RFC 4648 is decoded to that text with zeros behind it, at
-- least three of them, and the size that is reported is at most two above the length of the text.
pub decode-encode :
    (s : Bytes)
    → IsBytes s
    → (size zeros : ℕ) × (base64_decode (encode s)
        ≡ some (s ++ replicate (suc (suc (suc zeros))) 0, size))
      × (length s ≤ size)
      × (size ≤ length s + 2)
unfolding base64_decode
decode-encode s h =
    let facts = length-padded s in
    let n = length (encode s) in
    let zeros = pad_count s + (allocated n - length (padded s)) - 3 in
    (
      length (padded s),
      zeros,
      ap (finish n) (loop-encode s 0 [] h refl)
          ∙ finish_done n (0 + n) (padded s) (omega arith)
          ∙ ap (λ b. some (b, length (padded s)))
              (buffer-padded s n (suc (suc (suc zeros))) (omega arith)),
      omega arith,
      omega arith,
    )
