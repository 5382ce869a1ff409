-- ===== src/CText/Laws.antt =====
-- Laws of text equality, `strchr` and `%s`.
use nermalproxy.Prelude.{ℕ, ◌≡◌, ◌≢◌, ◌↔◌, refl, true, false, [], ◌∷◌, ◌++◌, none, some, arith, All}
use nermalproxy.CText.Defs.{
  Bytes, str_eq, c_str, strchr, is_space, skip_space, span_token, scan_token,
}

pub str_eq_iff : (a b : Bytes) → (str_eq a b ≡ true) ↔ (a ≡ b)
unfolding str_eq
str_eq_iff (x ∷ a) (y ∷ b) = ground (arith, str_eq_iff a b)
str_eq_iff _ _ = ground arith

pub str_eq_refl : (a : Bytes) → str_eq a a ≡ true
str_eq_refl a = (str_eq_iff a a).1 refl

-- No byte of the text is zero.
abbrev pub IsCString : Bytes → Type 0
IsCString = All (λ c. c ≢ 0)

pub c_str-append : (s rest : Bytes) → IsCString s → c_str (s ++ 0 ∷ rest) ≡ s
unfolding c_str
c_str-append [] rest h = refl
c_str-append (c ∷ cs) rest h = ground (arith, c_str-append cs rest h.1)

pub strchr-append : (a b : Bytes) (c : ℕ) → All (λ x. x ≢ c) a → strchr (a ++ c ∷ b) c ≡ some (a, b)
unfolding strchr
strchr-append [] b c h = ground arith
strchr-append (x ∷ a) b c h = ground (arith, strchr-append a b c h.1)

pub strchr-none : (s : Bytes) (c : ℕ) → All (λ x. x ≢ c) s → strchr s c ≡ none
unfolding strchr
strchr-none [] c h = refl
strchr-none (x ∷ s) c h = ground (arith, strchr-none s c h.1)

pub c_str_self : (s : Bytes) → IsCString s → c_str s ≡ s
unfolding c_str
c_str_self [] h = refl
c_str_self (c ∷ s) h = ground (arith, c_str_self s h.1)

-- Every byte is one that `%s` reads.
abbrev pub IsWord : Bytes → Type 0
IsWord = All (λ c. is_space c ≡ false)

pub span_token-append :
    (s rest : Bytes) (d : ℕ)
    → IsWord s
    → is_space d ≡ true
    → span_token (s ++ d ∷ rest) ≡ (s, d ∷ rest)
unfolding span_token
span_token-append [] rest d h k = rw k
span_token-append (c ∷ cs) rest d h k = rw (h.0, span_token-append cs rest d h.1 k)

pub span_token_self : (s : Bytes) → IsWord s → span_token s ≡ (s, [])
unfolding span_token
span_token_self [] h = refl
span_token_self (c ∷ cs) h = rw (h.0, span_token_self cs h.1)

skip_space-word : (c : ℕ) (s : Bytes) → is_space c ≡ false → skip_space (c ∷ s) ≡ c ∷ s
unfolding skip_space
skip_space-word c s h = rw h

-- A word in front of white space is read whole.
pub scan_token-append :
    (c d : ℕ) (s rest : Bytes)
    → IsWord (c ∷ s)
    → is_space d ≡ true
    → scan_token ((c ∷ s) ++ d ∷ rest) ≡ some (c ∷ s, d ∷ rest)
unfolding scan_token
scan_token-append c d s rest h k =
    rw (skip_space-word c (s ++ d ∷ rest) h.0, scan_token, span_token-append (c ∷ s) rest d h k)

-- So is a word at the end.
pub scan_token-last : (c : ℕ) (s : Bytes) → IsWord (c ∷ s) → scan_token (c ∷ s) ≡ some (c ∷ s, [])
unfolding scan_token
scan_token-last c s h = rw (skip_space-word c s h.0, scan_token, span_token_self (c ∷ s) h)

-- White space in front of a token changes nothing.
pub scan_token-space : (c : ℕ) (s : Bytes) → is_space c ≡ true → scan_token (c ∷ s) ≡ scan_token s
unfolding scan_token skip_space
scan_token-space c s h = rw (h, scan_token, skip_space)
