-- ===== src/Log.antt =====
-- Log.cpp and Log.hpp: the lines of the log, their severities, and where they go.
pub mod Lines
pub mod Calls
use nermalproxy.Prelude.{
  ℕ, zero, suc, ◌+◌, ◌-◌, ◌/◌, ◌%◌, Bool, true, false, List, [], ◌∷◌, ◌++◌, Option, none, some, leb,
  ltb, if◌then◌else◌, length, replicate, Outcome, done, fault, buffer_overflow, null_dereference,
  ◌>>=◌,
}
use nermalproxy.CText.{Bytes, codes, decimal}

pub data LogSeverity : Type 0 where
  error : LogSeverity
  warn : LogSeverity
  info : LogSeverity
  debug : LogSeverity
  verbose : LogSeverity

-- The number that a severity is converted to.
unfoldable pub rank : LogSeverity → ℕ
rank error = 0
rank warn = 1
rank info = 2
rank debug = 3
rank verbose = 4

-- `%0<width>lu`.
unfoldable pub zero_padded : ℕ → ℕ → Bytes
zero_padded width n = replicate (width - length (decimal n)) b'0' ++ decimal n

-- The tab, the tag and the tab of a severity; `Verbose` has none.
unfoldable pub tag : LogSeverity → Bytes
tag error = codes "\tERR\t"
tag warn = codes "\tWRN\t"
tag info = codes "\tNFO\t"
tag debug = codes "\tDBG\t"
tag verbose = []

-- What stands in `buf`, in front of the terminator. The text that `vsprintf` makes of the format
-- and the arguments is given.
unfoldable pub log_line : ℕ → LogSeverity → Bytes → Bytes
log_line ts severity text =
    (b'[' ∷ zero_padded 4 (ts / 1000))
    ++ ((b'.' ∷ zero_padded 3 (ts % 1000)) ++ ((b']' ∷ tag severity) ++ text))

abbrev pub line_capacity : ℕ
line_capacity = 1024

-- The two settings, the file once it is opened, with what was written to it, and what was printed.
pub record Logger : Type 0 where
  pub verbosity : LogSeverity
  pub to_file : Bool
  pub log_file : Option (List Bytes)
  pub printed : List Bytes

abbrev pub initial_logger : Logger
initial_logger = record { verbosity = debug; to_file = false; log_file = none; printed = [] }

-- The file `logs.txt` for a line: one that is open is kept, otherwise `fopen` makes an empty one,
-- or fails.
unfoldable pub open_log : Bool → Option (List Bytes) → Option (List Bytes)
open_log opens (some lines) = some lines
open_log true none = some []
open_log false none = none

-- The end of `Log`: a line to the file, if it is wanted.
unfoldable pub store_line : Bool → Bytes → Logger → Outcome Logger
store_line opens line l =
    if l.to_file
    then elim (open_log opens l.log_file) [
      | none ↦ fault null_dereference
      | some lines ↦ done (record l { log_file = some (lines ++ line ∷ []) })
    ]
    else done l

-- `Log`, at the time `ts`, with whether `fopen` would open the file.
unfoldable pub log : Bool → ℕ → LogSeverity → Bytes → Logger → Outcome Logger
log opens ts severity text l =
    if ltb (rank l.verbosity) (rank severity)
    then done l
    else if leb line_capacity (length (log_line ts severity text))
    then fault buffer_overflow
    else store_line opens (log_line ts severity text)
        (record l { printed = l.printed ++ log_line ts severity text ∷ [] })

unfoldable pub log_set_verbosity : LogSeverity → Logger → Logger
log_set_verbosity verbosity l = record l { verbosity = verbosity }

-- `LogStoreToDisk` does not read its argument.
unfoldable pub log_store_to_disk : Bool → Logger → Logger
log_store_to_disk enable l = record l { to_file = true }

-- A call of the three functions, in the order of the program.
pub data LogCall : Type 0 where
  log_call : ℕ → LogSeverity → Bytes → LogCall
  verbosity_call : LogSeverity → LogCall
  disk_call : Bool → LogCall

unfoldable pub log_calls : Bool → List LogCall → Logger → Outcome Logger
log_calls opens [] l = done l
log_calls opens (log_call ts severity text ∷ calls) l =
    log opens ts severity text l >>= log_calls opens calls
log_calls opens (verbosity_call verbosity ∷ calls) l =
    log_calls opens calls (log_set_verbosity verbosity l)
log_calls opens (disk_call enable ∷ calls) l = log_calls opens calls (log_store_to_disk enable l)
