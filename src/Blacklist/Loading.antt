-- ===== src/Blacklist/Loading.antt =====
-- What a blacklist blocks after a file was read into it.
use nermalproxy.Prelude.{
  ℕ, ◌≡◌, ◌≢◌, refl, sym, inl, inr, Bool, true, false, not, ◌&&◌, ◌||◌, List, [], ◌∷◌, ◌++◌, some,
  arith, if◌then◌else◌, Bool-cases, All, All-append, append_assoc,
}
use nermalproxy.CText.{Bytes, str_eq, str_eq_iff, IsCString, c_str_self, strchr-none, strchr-append}
use nermalproxy.Blacklist.{
  contains, Blacklist, insert, get_lines, cut_at, host_of, load_lines, load_from_file,
  is_host_allowed,
}

contains-insert :
    (x : Bytes) (hs : List Bytes) (host : Bytes)
    → contains (insert x hs) host ≡ (str_eq x host || contains hs host)
unfolding insert contains
contains-insert x hs host = elim (Bool-cases (contains hs x)) [
  | inl old ↦ rw old (ground (arith, str_eq_iff x host))
  | inr new ↦ rw new (ground arith)
]

-- Some line of the file holds this host.
unfoldable pub holds : List Bytes → Bytes → Bool
holds [] host = false
holds (line ∷ lines) host = str_eq (host_of line) host || holds lines host

contains-load :
    (lines hs : List Bytes) (host : Bytes)
    → contains (load_lines lines hs) host ≡ (holds lines host || contains hs host)
unfolding load_lines holds
contains-load [] hs host = refl
contains-load (line ∷ lines) hs host = ground (
  arith,
  contains-load lines (insert (host_of line) hs) host,
  contains-insert (host_of line) hs host,
)

-- A host name: no byte of it ends a line or a text.
pub record IsHost (host : Bytes) : Type 0 where
  pub nonzero : IsCString host
  pub one_line : All (λ c. c ≢ b'\n') host
  pub no_return : All (λ c. c ≢ b'\r') host

-- A file with one host to a line; the flag says whether lines end as on Windows.
abbrev pub host_file : Bool → List Bytes → Bytes
host_file crlf [] = []
host_file crlf (h ∷ hs) =
    h ++ ((if crlf then b'\r' ∷ b'\n' ∷ [] else b'\n' ∷ []) ++ host_file crlf hs)

pub get_lines-line :
    (l rest : Bytes)
    → All (λ c. c ≢ b'\n') l
    → get_lines (l ++ b'\n' ∷ rest) ≡ (l ++ b'\n' ∷ []) ∷ get_lines rest
unfolding get_lines
get_lines-line [] rest h = refl
get_lines-line (c ∷ l) rest h = rw (get_lines-line l rest h.1) (ground (arith, h.0))

pub cut_at_free : (c : ℕ) (s : Bytes) → All (λ x. x ≢ c) s → cut_at c s ≡ s
unfolding cut_at
cut_at_free c s h = rw (strchr-none s c h, cut_at)

pub cut_at-append : (c : ℕ) (s rest : Bytes) → All (λ x. x ≢ c) s → cut_at c (s ++ c ∷ rest) ≡ s
unfolding cut_at
cut_at-append c s rest h = rw (strchr-append s rest c h, cut_at)

host_of_unix : (h : Bytes) → IsHost h → host_of (h ++ b'\n' ∷ []) ≡ h
unfolding host_of
host_of_unix h v =
    rw
      (
        c_str_self (h ++ b'\n' ∷ [])
            (All-append (λ c. c ≢ 0) h (b'\n' ∷ []) v.nonzero (omega arith)),
        host_of,
        cut_at_free b'\r' (h ++ b'\n' ∷ [])
            (All-append (λ c. c ≢ b'\r') h (b'\n' ∷ []) v.no_return (omega arith)),
      )
      (cut_at-append b'\n' h [] v.one_line)

host_of_windows : (h : Bytes) → IsHost h → host_of (h ++ b'\r' ∷ b'\n' ∷ []) ≡ h
unfolding host_of
host_of_windows h v =
    rw
      (
        c_str_self (h ++ b'\r' ∷ b'\n' ∷ [])
            (All-append (λ c. c ≢ 0) h (b'\r' ∷ b'\n' ∷ []) v.nonzero (omega arith)),
        host_of,
        cut_at-append b'\r' h (b'\n' ∷ []) v.no_return,
      )
      (cut_at_free b'\n' h v.one_line)

holds-host_file :
    (crlf : Bool) (hs : List Bytes) (host : Bytes)
    → All IsHost hs
    → holds (get_lines (host_file crlf hs)) host ≡ contains hs host
unfolding holds contains
holds-host_file crlf [] host v = unfold get_lines in refl
holds-host_file false (h ∷ hs) host v =
    rw (get_lines-line h (host_file false hs) v.0.one_line, holds, host_of_unix h v.0)
      (ground (arith, holds-host_file false hs host v.1))
holds-host_file true (h ∷ hs) host v =
    let line = h ++ b'\r' ∷ [] in
    let split : h ++ b'\r' ∷ b'\n' ∷ host_file true hs ≡ line ++ b'\n' ∷ host_file true hs =
      sym (append_assoc h (b'\r' ∷ []) (b'\n' ∷ host_file true hs)) in
    let joined : line ++ b'\n' ∷ [] ≡ h ++ b'\r' ∷ b'\n' ∷ [] =
      append_assoc h (b'\r' ∷ []) (b'\n' ∷ []) in
    rw
      (
        split,
        get_lines-line line (host_file true hs)
            (All-append (λ c. c ≢ b'\n') h (b'\r' ∷ []) v.0.one_line (omega arith)),
        holds,
        joined,
        host_of_windows h v.0,
      )
      (ground (arith, holds-host_file true hs host v.1))

-- A file with one host to a line, with lines ended either way, is read whole: afterwards the
-- blacklist blocks what it blocked before and the hosts of the file, and nothing else.
pub allowed-load_from_file :
    (b : Blacklist) (crlf : Bool) (hs : List Bytes) (host : Bytes)
    → All IsHost hs
    → ((load_from_file b (some (host_file crlf hs))).1 ≡ true)
      × (is_host_allowed (load_from_file b (some (host_file crlf hs))).0 host
          ≡ (is_host_allowed b host && not (contains hs host)))
unfolding load_from_file is_host_allowed
allowed-load_from_file b crlf hs host v = (
  refl,
  rw
      (
        contains-load (get_lines (host_file crlf hs)) b.blacklist host,
        holds-host_file crlf hs host v,
      )
      (ground arith),
)
