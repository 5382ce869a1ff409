-- ===== src/Base64/Steps.antt =====
-- One character of the decoding loop.
use nermalproxy.Prelude.{
  ℕ, suc, ◌+◌, ◌*◌, ◌%◌, ◌^◌, ◌<◌, ◌≡◌, ◌≢◌, refl, ap, ◌∙◌, false, [], ◌∷◌, ◌++◌, some, arith, ◌==◌,
}
use nermalproxy.Prelude.Bits.{bit_and_sextet, bit_or_sextet}
use nermalproxy.CText.{Bytes}
use nermalproxy.Base64.{take_char, group_bytes, decode_loop}
use nermalproxy.Base64.Encoding.{sextet_char, sextet_value-sextet_char}

char-eq-pad : (v : ℕ) → (sextet_char v == b'=') ≡ false
unfolding sextet_char
char-eq-pad v = ground arith

char-eq-zero : (v : ℕ) → (sextet_char v == 0) ≡ false
unfolding sextet_char
char-eq-zero v = ground arith

take_char-sextet : (v t : ℕ) → v < 64 → take_char (sextet_char v) (t * 64) ≡ some (t * 64 + v)
unfolding take_char
take_char-sextet v t h =
    rw (char-eq-pad v, sextet_value-sextet_char v h, bit_and_sextet v h, bit_or_sextet t v h)

loop_inner :
    (c t idx : ℕ) (cs dst : Bytes) (n : ℕ)
    → (c == 0) ≡ false
    → take_char c t ≡ some n
    → suc idx % 4 ≢ 0
    → n * 64 < 2 ^ 32
    → decode_loop (c ∷ cs) idx t dst ≡ decode_loop cs (suc idx) (n * 64) dst
unfolding decode_loop
loop_inner c t idx cs dst n z k i lt =
    let m : n * 64 % 2 ^ 32 ≡ n * 64 = omega arith in ground arith

loop_last :
    (c t idx : ℕ) (cs dst : Bytes) (n : ℕ)
    → (c == 0) ≡ false
    → take_char c t ≡ some n
    → suc idx % 4 ≡ 0
    → decode_loop (c ∷ cs) idx t dst ≡ decode_loop cs (suc idx) 0 (dst ++ group_bytes n)
unfolding decode_loop
loop_last c t idx cs dst n z k i = ground arith

char_inner :
    (v t idx : ℕ) (cs dst : Bytes)
    → v < 64
    → suc idx % 4 ≢ 0
    → (t * 64 + v) * 64 < 2 ^ 32
    → decode_loop (sextet_char v ∷ cs) idx (t * 64) dst
      ≡ decode_loop cs (suc idx) ((t * 64 + v) * 64) dst
char_inner v t idx cs dst h i lt =
    loop_inner (sextet_char v) (t * 64) idx cs dst (t * 64 + v) (char-eq-zero v)
      (take_char-sextet v t h) i lt

char_last :
    (v t idx : ℕ) (cs dst : Bytes)
    → v < 64
    → suc idx % 4 ≡ 0
    → decode_loop (sextet_char v ∷ cs) idx (t * 64) dst
      ≡ decode_loop cs (suc idx) 0 (dst ++ group_bytes (t * 64 + v))
char_last v t idx cs dst h i =
    loop_last (sextet_char v) (t * 64) idx cs dst (t * 64 + v) (char-eq-zero v)
      (take_char-sextet v t h) i

char_first :
    (v idx : ℕ) (cs dst : Bytes)
    → v < 64
    → idx % 4 ≡ 0
    → decode_loop (sextet_char v ∷ cs) idx 0 dst ≡ decode_loop cs (suc idx) (v * 64) dst
char_first v idx cs dst h i =
    let e : 0 * 64 + v ≡ v = omega arith in
    rw e at (char_inner v 0 idx cs dst h (omega arith) (omega arith))

-- Four characters make a group.
pub loop_group :
    (u v w x idx : ℕ) (cs dst : Bytes)
    → u < 64
    → v < 64
    → w < 64
    → x < 64
    → idx % 4 ≡ 0
    → decode_loop (sextet_char u ∷ sextet_char v ∷ sextet_char w ∷ sextet_char x ∷ cs) idx 0 dst
      ≡ decode_loop cs (idx + 4) 0 (dst ++ group_bytes (((u * 64 + v) * 64 + w) * 64 + x))
loop_group u v w x idx cs dst hu hv hw hx i =
    char_first u idx _ dst hu i
    ∙ char_inner v u (suc idx) _ dst hv (omega arith) (omega arith)
    ∙ char_inner w (u * 64 + v) (suc (suc idx)) _ dst hw (omega arith) (omega arith)
    ∙ char_last x ((u * 64 + v) * 64 + w) (suc (suc (suc idx))) cs dst hx (omega arith)
    ∙ ap (λ k. decode_loop cs k 0 (dst ++ group_bytes (((u * 64 + v) * 64 + w) * 64 + x)))
        (omega arith)

pad_inner :
    (t idx : ℕ) (cs dst : Bytes)
    → suc idx % 4 ≢ 0
    → t * 64 < 2 ^ 32
    → decode_loop (b'=' ∷ cs) idx t dst ≡ decode_loop cs (suc idx) (t * 64) dst
unfolding take_char
pad_inner t idx cs dst i lt = loop_inner b'=' t idx cs dst t refl refl i lt

pad_last :
    (t idx : ℕ) (cs dst : Bytes)
    → suc idx % 4 ≡ 0
    → decode_loop (b'=' ∷ cs) idx t dst ≡ decode_loop cs (suc idx) 0 (dst ++ group_bytes t)
unfolding take_char
pad_last t idx cs dst i = loop_last b'=' t idx cs dst t refl refl i

-- A last group of three characters, and of two.
pub loop_pad :
    (u v w idx : ℕ) (dst : Bytes)
    → u < 64
    → v < 64
    → w < 64
    → idx % 4 ≡ 0
    → decode_loop (sextet_char u ∷ sextet_char v ∷ sextet_char w ∷ b'=' ∷ []) idx 0 dst
      ≡ some (idx + 4, dst ++ group_bytes (((u * 64 + v) * 64 + w) * 64))
loop_pad u v w idx dst hu hv hw i =
    char_first u idx _ dst hu i
    ∙ char_inner v u (suc idx) _ dst hv (omega arith) (omega arith)
    ∙ char_inner w (u * 64 + v) (suc (suc idx)) _ dst hw (omega arith) (omega arith)
    ∙ pad_last (((u * 64 + v) * 64 + w) * 64) (suc (suc (suc idx))) [] dst (omega arith)
    ∙ unfold decode_loop in
      ap (λ k. some (k, dst ++ group_bytes (((u * 64 + v) * 64 + w) * 64))) (omega arith)

pub loop_pad_two :
    (u v idx : ℕ) (dst : Bytes)
    → u < 64
    → v < 64
    → idx % 4 ≡ 0
    → decode_loop (sextet_char u ∷ sextet_char v ∷ b'=' ∷ b'=' ∷ []) idx 0 dst
      ≡ some (idx + 4, dst ++ group_bytes ((u * 64 + v) * 64 * 64))
loop_pad_two u v idx dst hu hv i =
    char_first u idx _ dst hu i
    ∙ char_inner v u (suc idx) _ dst hv (omega arith) (omega arith)
    ∙ pad_inner ((u * 64 + v) * 64) (suc (suc idx)) _ dst (omega arith) (omega arith)
    ∙ pad_last ((u * 64 + v) * 64 * 64) (suc (suc (suc idx))) [] dst (omega arith)
    ∙ unfold decode_loop in
      ap (λ k. some (k, dst ++ group_bytes ((u * 64 + v) * 64 * 64))) (omega arith)
