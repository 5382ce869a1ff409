-- ===== src/CText/Defs.antt =====
-- Texts as lists of bytes: `std::string` equality, `strchr`, and the directive `%s` of `sscanf`.
use Prim.Native.Char.{code}
use nermalproxy.Prelude.{
  zero, suc, ◌+◌, ◌/◌, ◌%◌, ltb, ◌++◌, String, ℕ, Bool, true, false, ◌&&◌, ◌||◌, leb, List, [], ◌∷◌,
  Option, none, some, ◌==◌, if◌then◌else◌,
}

-- A `std::string`, or the bytes of a C string in front of its terminator.
abbrev pub Bytes : Type 0
Bytes = List ℕ

-- A literal of the source: its characters are ASCII.
abbrev pub codes : String → Bytes
codes String.[] = []
codes (String.◌∷◌ c s) = code c ∷ codes s

-- `operator==` of `std::string`
unfoldable pub str_eq : Bytes → Bytes → Bool
str_eq [] [] = true
str_eq (x ∷ xs) (y ∷ ys) = x == y && str_eq xs ys
str_eq _ _ = false

-- What a `const char*` shows of a buffer: the bytes in front of the first zero.
unfoldable pub c_str : Bytes → Bytes
c_str [] = []
c_str (c ∷ cs) = if c == 0 then [] else c ∷ c_str cs

-- `strchr` on a C string: the text in front of the first `c`, and the text behind it.
unfoldable pub strchr : Bytes → ℕ → Option (Bytes × Bytes)
strchr [] c = none
strchr (x ∷ xs) c = elim (x == c) [
  | true ↦ some ([], xs)
  | false ↦ elim (strchr xs c) [ none ↦ none | some (a, b) ↦ some (x ∷ a, b) ]
]

-- `strrchr` on a C string: the text in front of the last `c`.
unfoldable pub strrchr : Bytes → ℕ → Option Bytes
strrchr [] c = none
strrchr (x ∷ xs) c = elim (strrchr xs c) [
  | none ↦ if x == c then some [] else none
  | some a ↦ some (x ∷ a)
]

-- `isspace` in the C locale
abbrev pub is_space : ℕ → Bool
is_space c = c == 32 || (leb 9 c && leb c 13)

unfoldable pub skip_space : Bytes → Bytes
skip_space [] = []
skip_space (c ∷ cs) = if is_space c then skip_space cs else c ∷ cs

-- The longest prefix without white space, and what follows it.
unfoldable pub span_token : Bytes → Bytes × Bytes
span_token [] = ([], [])
span_token (c ∷ cs) =
    let (token, rest) = span_token cs in if is_space c then ([], c ∷ cs) else (c ∷ token, rest)

-- `%s`: white space is skipped, and a non-empty token is read; `none` at the end of the text.
unfoldable pub scan_token : Bytes → Option (Bytes × Bytes)
scan_token s = elim (skip_space s) [ [] ↦ none | c ∷ cs ↦ some (span_token (c ∷ cs)) ]

-- The text behind a prefix.
unfoldable pub strip_prefix : Bytes → Bytes → Option Bytes
strip_prefix [] s = some s
strip_prefix (p ∷ ps) [] = none
strip_prefix (p ∷ ps) (c ∷ s) = let rest = strip_prefix ps s in if p == c then rest else none

-- `strstr`: the text behind the first occurrence.
unfoldable pub strstr : Bytes → Bytes → Option Bytes
strstr [] needle = strip_prefix needle []
strstr (c ∷ s) needle =
    let later = strstr s needle in
    elim (strip_prefix needle (c ∷ s)) [ none ↦ later | some rest ↦ some rest ]

-- The decimal digits of a number below ten to the power of the fuel.
unfoldable pub digits_of : ℕ → ℕ → Bytes
digits_of zero n = []
digits_of (suc fuel) n =
    let front = digits_of fuel (n / 10) in
    if ltb n 10 then (n + b'0') ∷ [] else front ++ (n % 10 + b'0') ∷ []

-- `%lu` and `%d` of a number that fits in 64 bits, which has twenty digits at most.
abbrev pub decimal : ℕ → Bytes
decimal n = digits_of 20 n
