-- ===== src/Log/Calls.antt =====
-- What Log.cpp prints and stores over a sequence of calls.
use nermalproxy.Prelude.{
  ℕ, ◌≤◌, ◌≡◌, inl, inr, ◌∙◌, ap, sym, refl, Bool, true, false, List, [], ◌∷◌, ◌++◌, append-nil,
  append_assoc, Option, none, some, ltb, if◌then◌else◌, length, All, Bool-cases, done, ◌>>=◌,
}
use nermalproxy.CText.{Bytes}
use nermalproxy.Log.{
  LogSeverity, debug, rank, log_line, Logger, initial_logger, open_log, store_line,
  log_set_verbosity, log_store_to_disk, LogCall, log_call, verbosity_call, disk_call, log_calls,
}
use nermalproxy.Log.Lines.{log-quiet, log-loud}

-- The lines of the calls that the verbosity of the time lets through.
unfoldable pub kept : LogSeverity → List LogCall → List Bytes
kept verbosity [] = []
kept verbosity (log_call ts severity text ∷ calls) =
    if ltb (rank verbosity) (rank severity)
    then kept verbosity calls
    else log_line ts severity text ∷ kept verbosity calls
kept verbosity (verbosity_call v ∷ calls) = kept v calls
kept verbosity (disk_call enable ∷ calls) = kept verbosity calls

-- Those of the calls behind the first one of `LogStoreToDisk`.
unfoldable pub stored : LogSeverity → List LogCall → List Bytes
stored verbosity [] = []
stored verbosity (log_call ts severity text ∷ calls) = stored verbosity calls
stored verbosity (verbosity_call v ∷ calls) = stored v calls
stored verbosity (disk_call enable ∷ calls) = kept verbosity calls

abbrev pub lines_of : Option (List Bytes) → List Bytes
lines_of none = []
lines_of (some lines) = lines

-- A text that fits in the buffer with all that may come in front of it.
abbrev pub FitsBuffer : LogCall → Type 0
FitsBuffer (log_call ts severity text) = length text ≤ 975
FitsBuffer (verbosity_call v) = Unit
FitsBuffer (disk_call enable) = Unit

abbrev state : LogSeverity → Bool → Option (List Bytes) → List Bytes → Logger
state verbosity to_file log_file printed = record {
  verbosity = verbosity;
  to_file = to_file;
  log_file = log_file;
  printed = printed;
}

-- The lines that go to the file from now on.
unfoldable to_disk : Bool → LogSeverity → List LogCall → List Bytes
to_disk true = kept
to_disk false = stored

-- What the calls do to a state.
abbrev Logs : Logger → List LogCall → Type 0
Logs l calls =
    (l' : Logger) × (log_calls true calls l ≡ done l')
    × (l'.printed ≡ l.printed ++ kept l.verbosity calls)
    × (lines_of l'.log_file ≡ lines_of l.log_file ++ to_disk l.to_file l.verbosity calls)

-- A line goes to the file, if it is wanted.
abbrev to_log_file : Bool → Bytes → Option (List Bytes) → Option (List Bytes)
to_log_file true line log_file = some (lines_of log_file ++ line ∷ [])
to_log_file false line log_file = log_file

store_line_done :
    (line : Bytes) (verbosity : LogSeverity) (to_file : Bool) (log_file : Option (List Bytes))
    (printed : List Bytes)
    → store_line true line (state verbosity to_file log_file printed)
      ≡ done (state verbosity to_file (to_log_file to_file line log_file) printed)
unfolding store_line open_log
store_line_done line verbosity true none printed = refl
store_line_done line verbosity true (some lines) printed = refl
store_line_done line verbosity false log_file printed = refl

kept-quiet :
    (ts : ℕ) (severity verbosity : LogSeverity) (text : Bytes) (calls : List LogCall)
    → ltb (rank verbosity) (rank severity) ≡ true
    → kept verbosity (log_call ts severity text ∷ calls) ≡ kept verbosity calls
unfolding kept
kept-quiet ts severity verbosity text calls h = rw h

kept-loud :
    (ts : ℕ) (severity verbosity : LogSeverity) (text : Bytes) (calls : List LogCall)
    → ltb (rank verbosity) (rank severity) ≡ false
    → kept verbosity (log_call ts severity text ∷ calls)
      ≡ log_line ts severity text ∷ kept verbosity calls
unfolding kept
kept-loud ts severity verbosity text calls h = rw h

to_disk-quiet :
    (to_file : Bool) (ts : ℕ) (severity verbosity : LogSeverity) (text : Bytes)
    (calls : List LogCall)
    → ltb (rank verbosity) (rank severity) ≡ true
    → to_disk to_file verbosity (log_call ts severity text ∷ calls)
      ≡ to_disk to_file verbosity calls
unfolding to_disk stored
to_disk-quiet true ts severity verbosity text calls h =
    kept-quiet ts severity verbosity text calls h
to_disk-quiet false ts severity verbosity text calls h = refl

-- What stands in the file and what is still to come, around a line.
to_disk-loud :
    (to_file : Bool) (log_file : Option (List Bytes)) (ts : ℕ) (severity verbosity : LogSeverity)
    (text : Bytes) (calls : List LogCall)
    → ltb (rank verbosity) (rank severity) ≡ false
    → lines_of (to_log_file to_file (log_line ts severity text) log_file)
        ++ to_disk to_file verbosity calls
      ≡ lines_of log_file ++ to_disk to_file verbosity (log_call ts severity text ∷ calls)
unfolding to_disk stored
to_disk-loud true log_file ts severity verbosity text calls h =
    append_assoc (lines_of log_file) (log_line ts severity text ∷ []) (kept verbosity calls)
    ∙ ap (λ r. lines_of log_file ++ r) (sym (kept-loud ts severity verbosity text calls h))
to_disk-loud false log_file ts severity verbosity text calls h = refl

calls-Logs :
    (calls : List LogCall) (verbosity : LogSeverity) (to_file : Bool)
    (log_file : Option (List Bytes)) (printed : List Bytes)
    → All FitsBuffer calls
    → Logs (state verbosity to_file log_file printed) calls
unfolding log_calls kept to_disk stored log_set_verbosity log_store_to_disk
calls-Logs [] v true f p h =
    (state v true f p, refl, sym (append-nil p), sym (append-nil (lines_of f)))
calls-Logs [] v false f p h =
    (state v false f p, refl, sym (append-nil p), sym (append-nil (lines_of f)))
calls-Logs (verbosity_call w ∷ calls) v true f p h = calls-Logs calls w true f p h.1
calls-Logs (verbosity_call w ∷ calls) v false f p h = calls-Logs calls w false f p h.1
calls-Logs (disk_call enable ∷ calls) v true f p h = calls-Logs calls v true f p h.1
calls-Logs (disk_call enable ∷ calls) v false f p h = calls-Logs calls v true f p h.1
calls-Logs (log_call ts severity text ∷ calls) v t f p h =
    let line = log_line ts severity text in
    elim (Bool-cases (ltb (rank v) (rank severity))) [
      | inl quiet ↦
          let (l', e, shown, filed) = calls-Logs calls v t f p h.1 in
          (
            l',
            ap (λ o. o >>= log_calls true calls) (log-quiet ts severity text (state v t f p) quiet)
                ∙ e,
            shown ∙ ap (λ r. p ++ r) (sym (kept-quiet ts severity v text calls quiet)),
            filed
                ∙ ap (λ r. lines_of f ++ r) (sym (to_disk-quiet t ts severity v text calls quiet)),
          )
      | inr loud ↦
          let (l', e, shown, filed) =
            calls-Logs calls v t (to_log_file t line f) (p ++ line ∷ []) h.1 in
          (
            l',
            ap (λ o. o >>= log_calls true calls)
                  (log-loud ts severity text (state v t f p) loud h.0
                    ∙ store_line_done line v t f (p ++ line ∷ []))
                ∙ e,
            shown
                ∙ append_assoc p (line ∷ []) (kept v calls)
                ∙ ap (λ r. p ++ r) (sym (kept-loud ts severity v text calls loud)),
            filed ∙ to_disk-loud t f ts severity v text calls loud,
          )
    ]

-- From the first state, whatever the times and severities, calls of `Log` with texts of 975 bytes
-- at most, of `LogSetVerbosity` and of `LogStoreToDisk` end without a fault, if `logs.txt` can be
-- opened: the lines that the verbosity of the time lets through are printed in order, and those
-- behind the first call of `LogStoreToDisk`, whatever its argument, make up the file.
pub log_calls_total :
    (calls : List LogCall)
    → All FitsBuffer calls
    → (l : Logger) × (log_calls true calls initial_logger ≡ done l)
      × (l.printed ≡ kept debug calls)
      × (lines_of l.log_file ≡ stored debug calls)
unfolding to_disk
log_calls_total calls h = calls-Logs calls debug false none [] h
