-- ===== src/Log/Lines.antt =====
-- The length of a line of Log.cpp, and what one call does.
use nermalproxy.Prelude.{
  ℕ, zero, suc, ◌+◌, ◌-◌, ◌/◌, ◌%◌, ◌≤◌, ◌≡◌, Bool, true, false, [], ◌∷◌, ◌++◌, arith, leb, ltb,
  length, length-append, length-replicate, lt→leb-false, replicate, done, fault, buffer_overflow,
}
use nermalproxy.CText.{Bytes, digits_of, decimal}
use nermalproxy.Log.{
  LogSeverity, error, warn, info, debug, verbose, rank, zero_padded, tag, log_line, line_capacity,
  Logger, store_line, log,
}

length-digits_of : (fuel n : ℕ) → length (digits_of fuel n) ≤ fuel
unfolding digits_of
length-digits_of zero n = omega arith
length-digits_of (suc fuel) n =
    let shorter = length-digits_of fuel (n / 10) in
    let whole = length-append (digits_of fuel (n / 10)) ((n % 10 + b'0') ∷ []) in ground arith

length-zero_padded : (width n : ℕ) → width ≤ 20 → length (zero_padded width n) ≤ 20
unfolding zero_padded
length-zero_padded width n h = omega (
  arith,
  length-digits_of 20 n,
  length-append (replicate (width - length (decimal n)) b'0') (decimal n),
  length-replicate {A = ℕ} (width - length (decimal n)) b'0',
)

length-tag : (severity : LogSeverity) → length (tag severity) ≤ 5
unfolding tag
length-tag error = omega arith
length-tag warn = omega arith
length-tag info = omega arith
length-tag debug = omega arith
length-tag verbose = omega arith

-- What comes in front of a text takes 48 bytes at most.
length-log_line :
    (ts : ℕ) (severity : LogSeverity) (text : Bytes)
    → length (log_line ts severity text) ≤ 48 + length text
unfolding log_line
length-log_line ts severity text = omega (
  arith,
  length-zero_padded 4 (ts / 1000) (omega arith),
  length-zero_padded 3 (ts % 1000) (omega arith),
  length-tag severity,
  length-append (b'[' ∷ zero_padded 4 (ts / 1000))
      ((b'.' ∷ zero_padded 3 (ts % 1000)) ++ ((b']' ∷ tag severity) ++ text)),
  length-append (b'.' ∷ zero_padded 3 (ts % 1000)) ((b']' ∷ tag severity) ++ text),
  length-append (b']' ∷ tag severity) text,
)

text_le_log_line :
    (ts : ℕ) (severity : LogSeverity) (text : Bytes)
    → length text ≤ length (log_line ts severity text)
unfolding log_line
text_le_log_line ts severity text = omega (
  arith,
  length-append (b'[' ∷ zero_padded 4 (ts / 1000))
      ((b'.' ∷ zero_padded 3 (ts % 1000)) ++ ((b']' ∷ tag severity) ++ text)),
  length-append (b'.' ∷ zero_padded 3 (ts % 1000)) ((b']' ∷ tag severity) ++ text),
  length-append (b']' ∷ tag severity) text,
)

le→leb : (a b : ℕ) → a ≤ b → leb a b ≡ true
le→leb a b h = ground arith

pub log-quiet :
    (ts : ℕ) (severity : LogSeverity) (text : Bytes) (l : Logger)
    → ltb (rank l.verbosity) (rank severity) ≡ true
    → log true ts severity text l ≡ done l
unfolding log
log-quiet ts severity text l h = rw h

pub log-loud :
    (ts : ℕ) (severity : LogSeverity) (text : Bytes) (l : Logger)
    → ltb (rank l.verbosity) (rank severity) ≡ false
    → length text ≤ 975
    → log true ts severity text l
      ≡ store_line true
          (log_line ts severity text)
          (record l { printed = l.printed ++ log_line ts severity text ∷ [] })
unfolding log
log-loud ts severity text l h fits = rw (
  h,
  lt→leb-false line_capacity (length (log_line ts severity text))
      (omega (arith, length-log_line ts severity text)),
)

-- A text of the size of the buffer runs over it.
log_overflow :
    (opens : Bool) (ts : ℕ) (severity : LogSeverity) (text : Bytes) (l : Logger)
    → ltb (rank l.verbosity) (rank severity) ≡ false
    → line_capacity ≤ length text
    → log opens ts severity text l ≡ fault buffer_overflow
unfolding log
log_overflow opens ts severity text l loud long = rw (
  loud,
  le→leb line_capacity (length (log_line ts severity text))
      (omega (arith, text_le_log_line ts severity text)),
)
