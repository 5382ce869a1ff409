-- ===== src/Blacklist.antt =====
-- BlackList.cpp: sets of blocked hosts, read from files, and the collection of them by name.
pub mod Loading
use nermalproxy.Prelude.{
  ℕ, Bool, true, false, List, [], ◌∷◌, ◌++◌, Option, none, some, ◌==◌, if◌then◌else◌,
}
use nermalproxy.CText.{Bytes, str_eq, c_str, strchr}

-- `std::set::find` on the elements of a set.
unfoldable pub contains : List Bytes → Bytes → Bool
contains [] host = false
contains (h ∷ hs) host = if str_eq h host then true else contains hs host

pub record Blacklist : Type 0 where
  pub name : Bytes
  -- the elements of a `std::set`, none of them twice
  pub blacklist : List Bytes

unfoldable pub new_blacklist : Bytes → Blacklist
new_blacklist name = record { name = name; blacklist = [] }

unfoldable pub clear : Blacklist → Blacklist
clear b = record b { blacklist = [] }

-- `std::set::insert`
unfoldable pub insert : Bytes → List Bytes → List Bytes
unfolding contains
insert host hs = if contains hs host then hs else host ∷ hs

-- The lines that `getline` gives of a text, each with its newline.
unfoldable pub get_lines : Bytes → List Bytes
get_lines [] = []
get_lines (c ∷ cs) =
    let rest = get_lines cs in
    if c == b'\n'
    then (c ∷ []) ∷ rest
    else elim rest [ [] ↦ (c ∷ []) ∷ [] | line ∷ lines ↦ (c ∷ line) ∷ lines ]

-- `*strchr(s, c) = '\0'`, where the character occurs.
unfoldable pub cut_at : ℕ → Bytes → Bytes
cut_at c s = elim (strchr s c) [ none ↦ s | some (a, b) ↦ a ]

-- The text of a line that goes into the set.
unfoldable pub host_of : Bytes → Bytes
unfolding cut_at
host_of line = cut_at b'\n' (cut_at b'\r' (c_str line))

unfoldable pub load_lines : List Bytes → List Bytes → List Bytes
unfolding host_of insert
load_lines [] hs = hs
load_lines (line ∷ lines) hs = load_lines lines (insert (host_of line) hs)

-- `LoadFromFile`, with the contents of the file, or `none` if it cannot be opened.
unfoldable pub load_from_file : Blacklist → Option Bytes → Blacklist × Bool
unfolding load_lines get_lines
load_from_file b none = (b, false)
load_from_file b (some text) =
    (record b { blacklist = load_lines (get_lines text) b.blacklist }, true)

unfoldable pub is_host_allowed : Blacklist → Bytes → Bool
is_host_allowed b host = if contains b.blacklist host then false else true

-- `BlacklistList`, in the order of the additions.
abbrev pub BlacklistList : Type 0
BlacklistList = List Blacklist

unfoldable pub add_list : BlacklistList → Blacklist → BlacklistList
add_list ls b = ls ++ b ∷ []

unfoldable pub is_allowed_in_list : BlacklistList → Bytes → Bytes → Bool
is_allowed_in_list [] name host = false
is_allowed_in_list (b ∷ ls) name host =
    if str_eq name b.name then is_host_allowed b host else is_allowed_in_list ls name host

unfoldable pub has_list : BlacklistList → Bytes → Bool
has_list [] name = false
has_list (b ∷ ls) name = if str_eq name b.name then true else has_list ls name
