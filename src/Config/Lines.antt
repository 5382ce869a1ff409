-- ===== src/Config/Lines.antt =====
-- What the reader makes of the lines of a well-formed file.
use nermalproxy.Prelude.{
  ℕ, ◌≡◌, ◌≢◌, refl, ap, ◌∙◌, true, false, List, [], ◌∷◌, ◌++◌, append_assoc, none, some, arith,
  lt→ltb, length, All, All-append, done,
}
use nermalproxy.Blacklist.{cut_at}
use nermalproxy.Blacklist.Loading.{cut_at_free}
use nermalproxy.CText.{
  Bytes, is_space, IsCString, c_str, c_str_self, strchr, strchr-append, strchr-none, strrchr,
  scan_token, scan_token-append, scan_token-last, scan_token-space, IsWord,
}
use nermalproxy.Config.{
  ConfigData, add_section, add_value, text_capacity, Stale, section_text, comma_pieces, read_values,
  Reader, read_text, read_line,
}
use nermalproxy.Config.Names.{
  is_plain, IsName, plain-free, plain-IsWord, scan_into-append, scan_into-last,
}

strrchr-last : (s rest : Bytes) (c : ℕ) → All (λ x. x ≢ c) rest → strrchr (s ++ c ∷ rest) c ≡ some s
unfolding strrchr
strrchr-last [] rest c h = rw (strrchr-none rest c h) (ground arith)
  where
    strrchr-none : (s : Bytes) (c : ℕ) → All (λ x. x ≢ c) s → strrchr s c ≡ none
    strrchr-none [] c h = refl
    strrchr-none (x ∷ s) c h = rw (strrchr-none s c h.1) (ground (arith, h.0))
strrchr-last (x ∷ s) rest c h = rw (strrchr-last s rest c h)

read_line_text :
    (stale : Stale) (r : Reader) (line : Bytes)
    → IsCString line
    → All (λ c. c ≢ b'#') line
    → read_line stale r line ≡ read_text stale r line
unfolding read_line
read_line_text stale r line z h =
    ap (λ s. read_text stale r (cut_at b'#' s)) (c_str_self line z)
    ∙ ap (read_text stale r) (cut_at_free b'#' line h)

-- A section line: `[name]`.
pub read_line-section :
    (stale : Stale) (r : Reader) (name : Bytes)
    → IsName name
    → read_line stale r (b'[' ∷ name ++ b']' ∷ b'\n' ∷ [])
      ≡ done (record { config = add_section r.config name; section = name }, false)
unfolding read_text section_text strchr
read_line-section stale r name n =
    let line = b'[' ∷ name ++ b']' ∷ b'\n' ∷ [] in
    let nonzero : IsCString line = (
      omega arith,
      All-append (λ c. c ≢ 0) name (b']' ∷ b'\n' ∷ []) (plain-free 0 name refl n.plain)
          (omega arith),
    ) in
    let no_comment : All (λ c. c ≢ b'#') line = (
      omega arith,
      All-append (λ c. c ≢ b'#') name (b']' ∷ b'\n' ∷ []) (plain-free b'#' name refl n.plain)
          (omega arith),
    ) in
    read_line_text stale r line nonzero no_comment
    ∙ rw (
      strrchr-last name (b'\n' ∷ []) b']' (omega arith),
      read_text,
      section_text,
      scan_into-last name r.section n,
    )

-- The values of a setting, between commas.
unfoldable pub joined : Bytes → List Bytes → Bytes
joined v [] = v
joined v (w ∷ ws) = v ++ b',' ∷ joined w ws

-- The values one after the other.
unfoldable pub add_values : ConfigData → Bytes → Bytes → List Bytes → ConfigData
add_values config section key [] = config
add_values config section key (v ∷ vs) = add_values (add_value config section key v) section key vs

comma_pieces-last :
    (v rest : Bytes) → All (λ x. x ≢ b',') (v ++ rest) → comma_pieces (v ++ rest) ≡ (v ++ rest) ∷ []
unfolding comma_pieces
comma_pieces-last v rest h = one (v ++ rest) h
  where
    one : (s : Bytes) → All (λ x. x ≢ b',') s → comma_pieces s ≡ s ∷ []
    one [] h = refl
    one (x ∷ s) h = rw (one s h.1) (ground (arith, h.0))

comma_pieces-comma :
    (v rest : Bytes)
    → All (λ x. x ≢ b',') v
    → comma_pieces (v ++ b',' ∷ rest) ≡ v ∷ comma_pieces rest
unfolding comma_pieces
comma_pieces-comma [] rest h = refl
comma_pieces-comma (x ∷ v) rest h = rw (comma_pieces-comma v rest h.1) (ground (arith, h.0))

read_values-joined :
    (section key old v : Bytes) (ws : List Bytes) (config : ConfigData)
    → IsName v
    → All IsName ws
    → read_values section key old (comma_pieces (joined v ws ++ b'\n' ∷ [])) config
      ≡ done (add_values config section key (v ∷ ws))
unfolding read_values joined add_values
read_values-joined section key old v [] config n ns =
    let no_comma : All (λ c. c ≢ b',') (v ++ b'\n' ∷ []) =
      All-append (λ c. c ≢ b',') v (b'\n' ∷ []) (plain-free b',' v refl n.plain) (omega arith) in
    rw (
      comma_pieces-last v (b'\n' ∷ []) no_comma,
      read_values,
      scan_into-append v [] old b'\n' n refl,
    )
read_values-joined section key old v (w ∷ ws) config n ns = rw (
  append_assoc v (b',' ∷ joined w ws) (b'\n' ∷ []),
  comma_pieces-comma v (joined w ws ++ b'\n' ∷ []) (plain-free b',' v refl n.plain),
  read_values,
  scan_into-last v old n,
  read_values-joined section key v w ws (add_value config section key v) ns.0 ns.1,
)

-- A character that is neither plain nor a comma does not occur among the values.
pub joined-free :
    (c : ℕ) (v : Bytes) (ws : List Bytes)
    → is_plain c ≡ false
    → b',' ≢ c
    → IsName v
    → All IsName ws
    → All (λ x. x ≢ c) (joined v ws)
unfolding joined
joined-free c v [] h k n ns = plain-free c v h n.plain
joined-free c v (w ∷ ws) h k n ns =
    All-append (λ x. x ≢ c) v (b',' ∷ joined w ws) (plain-free c v h n.plain)
      (k, joined-free c w ws h k ns.0 ns.1)

setting-free :
    (c : ℕ) (key v : Bytes) (ws : List Bytes)
    → is_plain c ≡ false
    → b',' ≢ c
    → b':' ≢ c
    → b'\n' ≢ c
    → IsName key
    → IsName v
    → All IsName ws
    → All (λ x. x ≢ c) (key ++ b':' ∷ (joined v ws ++ b'\n' ∷ []))
setting-free c key v ws h i j k m n ns =
    All-append (λ x. x ≢ c) key (b':' ∷ (joined v ws ++ b'\n' ∷ [])) (plain-free c key h m.plain)
      (j, All-append (λ x. x ≢ c) (joined v ws) (b'\n' ∷ []) (joined-free c v ws h i n ns) (k, tt))

-- A setting: `key:value,value`.
pub read_line-setting :
    (stale : Stale) (r : Reader) (key v : Bytes) (ws : List Bytes)
    → IsName key
    → IsName v
    → All IsName ws
    → read_line stale r (key ++ b':' ∷ (joined v ws ++ b'\n' ∷ []))
      ≡ done (record r { config = add_values r.config r.section key (v ∷ ws) }, false)
unfolding read_text section_text
read_line-setting stale r key v ws m n ns =
    let line = key ++ b':' ∷ (joined v ws ++ b'\n' ∷ []) in
    read_line_text stale r line
      (setting-free 0 key v ws refl (omega arith) (omega arith) (omega arith) m n ns)
      (setting-free b'#' key v ws refl (omega arith) (omega arith) (omega arith) m n ns)
    ∙ rw (
      strchr-none line b'['
          (setting-free b'[' key v ws refl (omega arith) (omega arith) (omega arith) m n ns),
      read_text,
      section_text,
      strchr-append key (joined v ws ++ b'\n' ∷ []) b':' (plain-free b':' key refl m.plain),
      scan_into-last key stale.key m,
      read_values-joined r.section key stale.value v ws r.config n ns,
    )

-- A comment changes nothing.
pub read_line-comment :
    (stale : Stale) (r : Reader) (text : Bytes) → read_line stale r (b'#' ∷ text) ≡ done (r, false)
unfolding read_line read_text section_text c_str cut_at strchr scan_token
    nermalproxy.CText.skip_space
read_line-comment stale r text = refl

-- An empty line changes nothing.
pub read_line-blank :
    (stale : Stale) (r : Reader) → read_line stale r (b'\n' ∷ []) ≡ done (r, false)
unfolding read_line read_text section_text c_str cut_at strchr scan_token
    nermalproxy.CText.skip_space
read_line-blank stale r = refl

-- A word without a colon ends the loop.
pub read_line-stray :
    (stale : Stale) (r : Reader) (word : Bytes)
    → IsName word
    → read_line stale r (word ++ b'\n' ∷ []) ≡ done (r, true)
unfolding read_text section_text
read_line-stray stale r [] n = absurd (n.nonempty refl)
read_line-stray stale r (c ∷ s) n =
    let line = (c ∷ s) ++ b'\n' ∷ [] in
    let free : (x : ℕ) → is_plain x ≡ false → b'\n' ≢ x → All (λ y. y ≢ x) line = λ x h k.
      All-append (λ y. y ≢ x) (c ∷ s) (b'\n' ∷ []) (plain-free x (c ∷ s) h n.plain) (k, tt) in
    read_line_text stale r line (free 0 refl (omega arith)) (free b'#' refl (omega arith))
    ∙ rw (
      strchr-none line b'[' (free b'[' refl (omega arith)),
      read_text,
      section_text,
      strchr-none line b':' (free b':' refl (omega arith)),
      scan_token-append c b'\n' s [] (plain-IsWord (c ∷ s) n.plain) refl,
      lt→ltb (length (c ∷ s)) text_capacity n.short,
    )
