-- ===== src/Base64/Bounds.antt =====
-- Which texts are decoded, and how much is written for them.
use nermalproxy.Prelude.{
  ℕ, suc, ◌+◌, ◌-◌, ◌*◌, ◌%◌, ◌^◌, ◌≤◌, ◌≡◌, ◌≢◌, ◌↔◌, refl, ap, inl, inr, Bool, true, ◌&&◌, ◌||◌,
  [], ◌∷◌, ◌++◌, Option, none, some, arith, leb, ◌==◌, Bool-cases, Option-cases, length,
  length-append, length-replicate, replicate, All,
}
use nermalproxy.CText.{Bytes, IsCString}
use nermalproxy.Base64.{
  sextet_value, take_char, group_bytes, decode_loop, allocated, buffer, finish, base64_decode,
}

-- A letter, a digit, `+`, `/` or the pad character.
abbrev pub is_base64 : ℕ → Bool
is_base64 c =
    (leb b'A' c && leb c b'Z')
    || (leb b'a' c && leb c b'z')
    || (leb b'0' c && leb c b'9')
    || c == b'+'
    || c == b'/'
    || c == b'='

take_char-ne-none : (c t : ℕ) → is_base64 c ≡ true → take_char c t ≢ none
unfolding take_char sextet_value
take_char-ne-none c t h = ground arith

take_char_good : (c t : ℕ) → is_base64 c ≡ true → (n : ℕ) × (take_char c t ≡ some n)
take_char_good c t h = elim (Option-cases (take_char c t)) [
  | inl e ↦ absurd (take_char-ne-none c t h e)
  | inr r ↦ r
]

take_char_bad : (c t n : ℕ) → take_char c t ≡ some n → is_base64 c ≡ true
unfolding take_char sextet_value
take_char_bad c t n h = ground arith

-- Three bytes for each full group.
abbrev Written : ℕ → Bytes → Type 0
Written idx dst = length dst * 4 + idx % 4 * 3 ≡ idx * 3

loop-Written :
    (cs : Bytes) (idx tmp : ℕ) (dst : Bytes) (last : ℕ) (out : Bytes)
    → Written idx dst
    → decode_loop cs idx tmp dst ≡ some (last, out)
    → Written last out × (last ≤ idx + length cs)
unfolding decode_loop
loop-Written [] idx tmp dst last out w e = ground arith
loop-Written (c ∷ cs) idx tmp dst last out w e = elim (Option-cases (take_char c tmp)) [
  | inl bad ↦ ground arith
  | inr (n, good) ↦ ground (
    arith,
    length-append dst (group_bytes n),
    loop-Written cs (suc idx) 0 (dst ++ group_bytes n) last out,
    loop-Written cs (suc idx) (n * 64 % 2 ^ 32) dst last out,
  )
]

loop_good :
    (cs : Bytes) (idx tmp : ℕ) (dst : Bytes)
    → IsCString cs
    → All (λ c. is_base64 c ≡ true) cs
    → (out : Bytes) × (decode_loop cs idx tmp dst ≡ some (idx + length cs, out))
unfolding decode_loop
loop_good [] idx tmp dst z h = (dst, ground arith)
loop_good (c ∷ cs) idx tmp dst z h =
    let (n, good) = take_char_good c tmp h.0 in
    elim (Bool-cases (suc idx % 4 == 0)) [
      | inl full ↦
          let (out, e) = loop_good cs (suc idx) 0 (dst ++ group_bytes n) z.1 h.1 in
          (out, ground arith)
      | inr more ↦
          let (out, e) = loop_good cs (suc idx) (n * 64 % 2 ^ 32) dst z.1 h.1 in (out, ground arith)
    ]

loop_bad :
    (cs : Bytes) (idx tmp : ℕ) (dst : Bytes) (last : ℕ) (out : Bytes)
    → IsCString cs
    → decode_loop cs idx tmp dst ≡ some (last, out)
    → All (λ c. is_base64 c ≡ true) cs × (last ≡ idx + length cs)
unfolding decode_loop
loop_bad [] idx tmp dst last out z e = (tt, ground arith)
loop_bad (c ∷ cs) idx tmp dst last out z e = elim (Option-cases (take_char c tmp)) [
  | inl bad ↦ ground arith
  | inr (n, good) ↦ ground (
    arith,
    take_char_bad c tmp n,
    loop_bad cs (suc idx) 0 (dst ++ group_bytes n) last out,
    loop_bad cs (suc idx) (n * 64 % 2 ^ 32) dst last out,
  )
]

finish-inv :
    (n : ℕ) (o : Option (ℕ × Bytes)) (b : Bytes) (size : ℕ)
    → finish n o ≡ some (b, size)
    → (idx : ℕ) × (dst : Bytes) × (o ≡ some (idx, dst))
      × (idx % 4 ≡ 0)
      × (b ≡ buffer n dst)
      × (size ≡ length dst)
finish-inv n none b size e = cc
finish-inv n (some (idx, dst)) b size e = (idx, dst, refl, ground arith, ground arith, ground arith)

-- Whatever is decoded, the bytes written stay within the allocation with three bytes to spare, and
-- the buffer that is handed out is the whole allocation.
pub decode_bounds :
    (source b : Bytes) (size : ℕ)
    → base64_decode source ≡ some (b, size)
    → (size * 4 ≤ length source * 3)
      × (size + 3 ≤ allocated (length source))
      × (length b ≡ allocated (length source))
unfolding base64_decode
decode_bounds source b size e =
    let (idx, dst, looped, whole, is_b, is_size) =
      finish-inv (length source) (decode_loop source 0 0 []) b size e in
    let written = loop-Written source 0 0 [] idx dst refl looped in
    let zeros = allocated (length source) - length dst in
    let size_b = length-append dst (replicate zeros 0) in
    (
      omega arith,
      omega arith,
      omega (arith, ap length is_b, size_b, length-replicate {A = ℕ} zeros 0),
    )

-- A C string is decoded exactly when all its characters are Base64 characters and its length
-- is a multiple of four.
pub decode_iff :
    (source : Bytes)
    → IsCString source
    → ((b : Bytes) × (size : ℕ) × (base64_decode source ≡ some (b, size)))
      ↔ (All (λ c. is_base64 c ≡ true) source × (length source % 4 ≡ 0))
unfolding base64_decode
decode_iff source z = (
  λ (b, size, e).
      let (idx, dst, looped, whole, _, _) =
        finish-inv (length source) (decode_loop source 0 0 []) b size e in
      let facts = loop_bad source 0 0 [] idx dst z looped in (facts.0, omega arith),
  λ (good, whole).
      let (out, e) = loop_good source 0 0 [] z good in
      (buffer (length source) out, length out, rw e (ground arith)),
)
