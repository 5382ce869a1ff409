-- ===== src/Config/Reading.antt =====
-- A well-formed file, line by line, and what `LoadData` makes of it.
use nermalproxy.Prelude.{
  ℕ, suc, ◌≡◌, ◌≢◌, refl, ap, ◌∙◌, List, [], ◌∷◌, ◌++◌, append_assoc, map, some, arith, All,
  All-append, done, ◌>>=◌,
}
use nermalproxy.Blacklist.{get_lines}
use nermalproxy.Blacklist.Loading.{get_lines-line}
use nermalproxy.CText.{Bytes}
use nermalproxy.Config.{ConfigData, add_section, Stale, Reader, read_lines, load_data}
use nermalproxy.Config.Lines.{
  joined, joined-free, add_values, read_line-section, read_line-setting, read_line-comment,
  read_line-blank, read_line-stray,
}
use nermalproxy.Config.Names.{IsName, plain-free}

-- The lines that a file is written with.
pub data Line : Type 0 where
  -- `[name]`
  heading : Bytes → Line
  -- `key:value,value`
  setting : Bytes → Bytes → List Bytes → Line
  -- `#` and any text
  comment : Bytes → Line
  -- an empty line
  blank : Line
  -- a word that is none of these
  stray : Bytes → Line

-- The text of a line, without its end.
abbrev pub line_text : Line → Bytes
line_text (heading name) = b'[' ∷ name ++ b']' ∷ []
line_text (setting key v ws) = key ++ b':' ∷ joined v ws
line_text (comment text) = b'#' ∷ text
line_text blank = []
line_text (stray word) = word

abbrev pub file_text : List Line → Bytes
file_text [] = []
file_text (l ∷ ls) = line_text l ++ b'\n' ∷ file_text ls

-- All names are words without a character that has a meaning, and a comment is one line.
abbrev pub IsLine : Line → Type 0
IsLine (heading name) = IsName name
IsLine (setting key v ws) = IsName key × IsName v × All IsName ws
IsLine (comment text) = All (λ c. c ≢ b'\n') text
IsLine blank = Unit
IsLine (stray word) = IsName word

-- What the lines mean, from the section on that the reader is in. A stray word ends the file.
abbrev pub meaning : List Line → ConfigData → Bytes → ConfigData
meaning [] config section = config
meaning (heading name ∷ ls) config section = meaning ls (add_section config name) name
meaning (setting key v ws ∷ ls) config section =
    meaning ls (add_values config section key (v ∷ ws)) section
meaning (comment text ∷ ls) config section = meaning ls config section
meaning (blank ∷ ls) config section = meaning ls config section
meaning (stray word ∷ ls) config section = config

line_text-free : (l : Line) → IsLine l → All (λ c. c ≢ b'\n') (line_text l)
line_text-free (heading name) v = (
  omega arith,
  All-append (λ c. c ≢ b'\n') name (b']' ∷ []) (plain-free b'\n' name refl v.plain) (omega arith),
)
line_text-free (setting key v ws) (m, n, ns) =
    All-append (λ c. c ≢ b'\n') key (b':' ∷ joined v ws) (plain-free b'\n' key refl m.plain)
      (omega arith, joined-free b'\n' v ws refl (omega arith) n ns)
line_text-free (comment text) v = (omega arith, v)
line_text-free blank v = tt
line_text-free (stray word) v = plain-free b'\n' word refl v.plain

get_lines-file_text :
    (ls : List Line)
    → All IsLine ls
    → get_lines (file_text ls) ≡ map (λ l. line_text l ++ b'\n' ∷ []) ls
get_lines-file_text [] v = unfold get_lines in refl
get_lines-file_text (l ∷ ls) v =
    get_lines-line (line_text l) (file_text ls) (line_text-free l v.0)
    ∙ ap (λ rest. (line_text l ++ b'\n' ∷ []) ∷ rest) (get_lines-file_text ls v.1)

-- The state that the loop ends in has what the lines mean.
read_lines-meaning :
    (stale : ℕ → Stale) (i : ℕ) (r : Reader) (ls : List Line)
    → All IsLine ls
    → (read_lines stale i r (map (λ l. line_text l ++ b'\n' ∷ []) ls) >>= λ r'. done r'.config)
      ≡ done (meaning ls r.config r.section)
unfolding read_lines
read_lines-meaning stale i r [] v = refl
read_lines-meaning stale i r (heading name ∷ ls) v = rw (
  append_assoc name (b']' ∷ []) (b'\n' ∷ []),
  read_line-section (stale i) r name v.0,
  read_lines-meaning stale (suc i) (record { config = add_section r.config name; section = name })
      ls v.1,
)
read_lines-meaning stale i r (setting key v ws ∷ ls) ((m, n, ns), vs) = rw (
  append_assoc key (b':' ∷ joined v ws) (b'\n' ∷ []),
  read_line-setting (stale i) r key v ws m n ns,
  read_lines-meaning stale (suc i)
      (record r { config = add_values r.config r.section key (v ∷ ws) }) ls vs,
)
read_lines-meaning stale i r (comment text ∷ ls) v =
    rw (
      read_line-comment (stale i) r (text ++ b'\n' ∷ []),
      read_lines-meaning stale (suc i) r ls v.1,
    )
read_lines-meaning stale i r (blank ∷ ls) v =
    rw (read_line-blank (stale i) r, read_lines-meaning stale (suc i) r ls v.1)
read_lines-meaning stale i r (stray word ∷ ls) v = rw (read_line-stray (stale i) r word v.0)

-- A file of headings, settings, comments, empty lines and stray words, whose names are words of plain
-- characters below 1024 bytes, is loaded as its lines mean, up to the first stray word. What the
-- arrays held before does not matter.
pub load_data-file_text :
    (stale : ℕ → Stale) (config : ConfigData) (ls : List Line)
    → All IsLine ls
    → load_data stale config (some (file_text ls)) ≡ done (meaning ls config [])
unfolding load_data
load_data-file_text stale config ls v =
    ap
      (λ lines.
        read_lines stale 0 (record { config = config; section = [] }) lines >>= λ r. done r.config)
      (get_lines-file_text ls v)
    ∙ read_lines-meaning stale 0 (record { config = config; section = [] }) ls v
