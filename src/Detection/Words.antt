-- ===== src/Detection/Words.antt =====
-- The first words of a request, as the detector scans them.
use nermalproxy.Prelude.{◌<◌, ◌≡◌, ◌≢◌, refl, [], ◌∷◌, ◌++◌, some, lt→ltb, length, done}
use nermalproxy.CText.{Bytes, IsWord, skip_space, scan_token, scan_token-append, scan_token-space}
use nermalproxy.Detection.{mode_capacity, scan_word, mode_and_url}

-- A word that the arrays hold.
pub record FitsWord (s : Bytes) : Type 0 where
  pub word : IsWord s
  pub nonempty : s ≢ []
  pub short : length s < mode_capacity

pub scan_word-append :
    (s rest : Bytes) → FitsWord s → scan_word (s ++ 32 ∷ rest) ≡ done (some (s, 32 ∷ rest))
unfolding scan_word
scan_word-append [] rest f = absurd (f.nonempty refl)
scan_word-append (c ∷ s) rest f = rw (
  scan_token-append c 32 s rest f.word refl,
  scan_word,
  lt→ltb (length (c ∷ s)) mode_capacity f.short,
)

pub scan_word-space : (s : Bytes) → scan_word (32 ∷ s) ≡ scan_word s
unfolding scan_word scan_token skip_space
scan_word-space s = rw (scan_token-space 32 s refl)

pub mode_and_url-words :
    (mode url rest : Bytes)
    → FitsWord mode
    → FitsWord url
    → mode_and_url (mode ++ 32 ∷ (url ++ 32 ∷ rest)) ≡ done (mode, url)
unfolding mode_and_url
mode_and_url-words mode url rest m u = rw (
  scan_word-append mode (url ++ 32 ∷ rest) m,
  mode_and_url,
  scan_word-space (url ++ 32 ∷ rest),
  scan_word-append url rest u,
)
