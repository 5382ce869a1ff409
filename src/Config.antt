-- ===== src/Config.antt =====
-- ConfigFile.cpp: sections of attributes with values, and the reader of the file that holds them.
pub mod Values
pub mod Names
pub mod Lines
pub mod Reading
use nermalproxy.Prelude.{
  ℕ, suc, ◌+◌, Bool, true, false, List, [], ◌∷◌, ◌++◌, Option, none, some, ltb, ◌==◌, if◌then◌else◌,
  length, get_elem?, Outcome, done, fault, buffer_overflow, ◌>>=◌,
}
use nermalproxy.Blacklist.{cut_at, get_lines}
use nermalproxy.CText.{Bytes, str_eq, c_str, strchr, strrchr, scan_token}

pub record MultiValueAttribute : Type 0 where
  pub name : Bytes
  pub values : List Bytes

abbrev pub new_attribute : Bytes → MultiValueAttribute
new_attribute name = record { name = name; values = [] }

abbrev pub append_value : Bytes → MultiValueAttribute → MultiValueAttribute
append_value value a = record a { values = a.values ++ value ∷ [] }

-- `GetValue` with an index: the value that is stored through the reference.
unfoldable pub get_value : MultiValueAttribute → ℕ → Option Bytes
get_value a index = if ltb (length a.values) index then none else get_elem? a.values index

-- `GetValue` without one.
unfoldable pub front_value : MultiValueAttribute → Bytes
front_value a = elim a.values [ [] ↦ [] | value ∷ values ↦ value ]

pub record ConfigSection : Type 0 where
  pub name : Bytes
  pub attributes : List MultiValueAttribute

abbrev pub new_section : Bytes → ConfigSection
new_section name = record { name = name; attributes = [] }

-- `GetAttribute` with a name, and the change that is made through the reference.
unfoldable pub with_attribute :
    (MultiValueAttribute → MultiValueAttribute)
    → List MultiValueAttribute
    → Bytes
    → List MultiValueAttribute
with_attribute f [] name = f (new_attribute name) ∷ []
with_attribute f (a ∷ attrs) name =
    if str_eq a.name name then f a ∷ attrs else a ∷ with_attribute f attrs name

-- `GetAttribute` with a name, and what the reference is to.
unfoldable pub get_attribute : List MultiValueAttribute → Bytes → MultiValueAttribute
get_attribute [] name = new_attribute name
get_attribute (a ∷ attrs) name = if str_eq a.name name then a else get_attribute attrs name

-- `GetAttribute` with an index; `none` is the null pointer.
abbrev pub attribute_at : ConfigSection → ℕ → Option MultiValueAttribute
attribute_at s idx = get_elem? s.attributes idx

-- `ConfigData`, its sections in the order of the additions.
abbrev pub ConfigData : Type 0
ConfigData = List ConfigSection

-- `FindSection`, with the change that is made through the reference.
unfoldable pub with_section : (ConfigSection → ConfigSection) → ConfigData → Bytes → ConfigData
with_section f [] name = f (new_section name) ∷ []
with_section f (s ∷ ss) name = if str_eq s.name name then f s ∷ ss else s ∷ with_section f ss name

-- `AddSection`, which leaves a section that is there.
abbrev pub add_section : ConfigData → Bytes → ConfigData
add_section config name = with_section (λ s. s) config name

-- `FindSection`, and what the reference is to.
unfoldable pub find_section : ConfigData → Bytes → ConfigSection
find_section [] name = new_section name
find_section (s ∷ ss) name = if str_eq s.name name then s else find_section ss name

-- `GetAttribute(key).AddValue(value)`
abbrev pub append_to : Bytes → Bytes → ConfigSection → ConfigSection
append_to key value s = record s {
  attributes = with_attribute (append_value value) s.attributes key;
}

-- `FindSection(section).GetAttribute(key).AddValue(value)`
unfoldable pub add_value : ConfigData → Bytes → Bytes → Bytes → ConfigData
add_value config section key value = with_section (append_to key value) config section

-- The size of the arrays for a section, a key and a value.
abbrev pub text_capacity : ℕ
text_capacity = 1024

-- `sscanf(text, "%s", old)`: what the array holds afterwards.
unfoldable pub scan_into : Bytes → Bytes → Outcome Bytes
scan_into text old = elim (scan_token text) [
  | none ↦ done old
  | some (token, rest) ↦
      if ltb (length token) text_capacity then done token else fault buffer_overflow
]

-- What the two arrays of a line hold before anything is written to them.
pub record Stale : Type 0 where
  pub key : Bytes
  pub value : Bytes

-- The text behind `[` up to the last `]`, which may also stand in front of the `[`.
unfoldable pub section_text : Bytes → Option Bytes
section_text text = elim (strchr text b'[') [
  | none ↦ none
  | some (before, after) ↦ elim (strrchr after b']') [
    | some inner ↦ some inner
    | none ↦ elim (strrchr before b']') [ none ↦ none | some front ↦ some after ]
  ]
]

-- The texts between the commas.
unfoldable pub comma_pieces : Bytes → List Bytes
comma_pieces [] = [] ∷ []
comma_pieces (c ∷ cs) =
    let rest = comma_pieces cs in
    if c == b','
    then [] ∷ rest
    else elim rest [ [] ↦ (c ∷ []) ∷ [] | piece ∷ pieces ↦ (c ∷ piece) ∷ pieces ]

-- The loop over the values of a key. A piece without a word repeats the value before it.
unfoldable pub read_values : Bytes → Bytes → Bytes → List Bytes → ConfigData → Outcome ConfigData
read_values section key value [] config = done config
read_values section key value (piece ∷ pieces) config =
    scan_into piece value >>= λ v. read_values section key v pieces (add_value config section key v)

-- What is kept from line to line.
pub record Reader : Type 0 where
  pub config : ConfigData
  pub section : Bytes

-- The reader after the text of a line, and whether the loop is done.
unfoldable pub read_text : Stale → Reader → Bytes → Outcome (Reader × Bool)
read_text stale r text = elim (section_text text) [
  | some inner ↦ scan_into inner r.section >>= λ name.
      done (record { config = add_section r.config name; section = name }, false)
  | none ↦ elim (strchr text b':') [
    | none ↦ elim (scan_token text) [
      | none ↦ done (r, false)
      | some (token, rest) ↦
          if ltb (length token) text_capacity then done (r, true) else fault buffer_overflow
    ]
    | some (before, after) ↦ scan_into before stale.key >>= λ key.
        read_values r.section key stale.value (comma_pieces after) r.config >>= λ config.
        done (record r { config = config }, false)
  ]
]

-- The text of a line is cut in front of a comment.
unfoldable pub read_line : Stale → Reader → Bytes → Outcome (Reader × Bool)
read_line stale r line = read_text stale r (cut_at b'#' (c_str line))

-- The loop over the lines, from the given number on.
unfoldable pub read_lines : (ℕ → Stale) → ℕ → Reader → List Bytes → Outcome Reader
read_lines stale i r [] = done r
read_lines stale i r (line ∷ lines) = read_line (stale i) r line >>= λ step. elim step.1 [
  | true ↦ done step.0
  | false ↦ read_lines stale (suc i) step.0 lines
]

-- `LoadData`, with the contents of the file, or `none` if it cannot be opened.
unfoldable pub load_data : (ℕ → Stale) → ConfigData → Option Bytes → Outcome ConfigData
unfolding get_lines
load_data stale config none = done config
load_data stale config (some text) =
    read_lines stale 0 (record { config = config; section = [] }) (get_lines text) >>= λ r.
    done r.config
