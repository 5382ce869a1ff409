-- ===== src/Config/Names.antt =====
-- The names in a configuration file, and how they are scanned.
use nermalproxy.Prelude.{
  ℕ, ◌<◌, ◌≡◌, ◌≢◌, refl, ap, Bool, true, false, not, ◌&&◌, [], ◌∷◌, ◌++◌, arith, lt→ltb, ◌==◌,
  length, All, done,
}
use nermalproxy.CText.{Bytes, is_space, scan_token-append, scan_token-last, IsWord}
use nermalproxy.Config.{text_capacity, scan_into}

-- A byte that has no meaning of its own in a line.
abbrev pub is_plain : ℕ → Bool
is_plain c =
    not (c == 0)
    && (not (is_space c)
        && (not (c == b'#')
            && (not (c == b'[') && (not (c == b']') && (not (c == b':') && not (c == b','))))))

-- Every byte is such.
abbrev pub ArePlain : Bytes → Type 0
ArePlain = All (λ c. is_plain c ≡ true)

-- A name of a section, a key or a value.
pub record IsName (s : Bytes) : Type 0 where
  pub plain : ArePlain s
  pub nonempty : s ≢ []
  pub short : length s < text_capacity

pub plain-free : (c : ℕ) (s : Bytes) → is_plain c ≡ false → ArePlain s → All (λ x. x ≢ c) s
plain-free c [] h p = tt
plain-free c (x ∷ s) h p = ((λ e. cc (ap is_plain e)), plain-free c s h p.1)

pub plain-IsWord : (s : Bytes) → ArePlain s → IsWord s
plain-IsWord [] p = tt
plain-IsWord (c ∷ s) p = (ground arith, plain-IsWord s p.1)

-- A word is read into an array that it fits, in front of white space or at the end.
pub scan_into-append :
    (s rest old : Bytes) (d : ℕ)
    → IsName s
    → is_space d ≡ true
    → scan_into (s ++ d ∷ rest) old ≡ done s
unfolding scan_into
scan_into-append [] rest old d n k = absurd (n.nonempty refl)
scan_into-append (c ∷ s) rest old d n k = rw (
  scan_token-append c d s rest (plain-IsWord (c ∷ s) n.plain) k,
  scan_into,
  lt→ltb (length (c ∷ s)) text_capacity n.short,
)

pub scan_into-last : (s old : Bytes) → IsName s → scan_into s old ≡ done s
unfolding scan_into
scan_into-last [] old n = absurd (n.nonempty refl)
scan_into-last (c ∷ s) old n = rw (
  scan_token-last c s (plain-IsWord (c ∷ s) n.plain),
  scan_into,
  lt→ltb (length (c ∷ s)) text_capacity n.short,
)
