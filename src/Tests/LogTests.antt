-- ===== src/Tests/LogTests.antt =====
-- Log.cpp on a few calls.
use nermalproxy.Prelude.{◌≡◌, refl, true, false, List, [], ◌∷◌, some, arith, done}
use nermalproxy.CText.{codes, digits_of}
use nermalproxy.Log.{
  warn, info, debug, rank, zero_padded, tag, log_line, Logger, initial_logger, open_log, store_line,
  log, log_set_verbosity, log_store_to_disk, LogCall, log_call, verbosity_call, disk_call,
  log_calls,
}
use nermalproxy.Log.Calls.{kept, stored, lines_of, log_calls_total}

program : Unit {0}
unfolding digits_of rank zero_padded tag log_line open_log store_line log log_set_verbosity
    log_store_to_disk log_calls
program = tt

abbrev three_calls : List LogCall
three_calls =
    log_call 12045 warn (codes "one")
    ∷ disk_call false
    ∷ log_call 12045 debug (codes "two")
    ∷ verbosity_call info
    ∷ log_call 12046 debug (codes "three")
    ∷ []

-- The disk is on after `LogStoreToDisk(false)`, and the last line is filtered out.
log_test :
    log_calls true three_calls initial_logger
    ≡ done (record {
      verbosity = info;
      to_file = true;
      log_file = some (codes "[0012.045]\tDBG\ttwo" ∷ []);
      printed = codes "[0012.045]\tWRN\tone" ∷ codes "[0012.045]\tDBG\ttwo" ∷ [];
    })
unfolding program
log_test = refl

log_calls_total_example :
    (l : Logger) × (log_calls true three_calls initial_logger ≡ done l)
    × (l.printed ≡ kept debug three_calls)
    × (lines_of l.log_file ≡ stored debug three_calls)
log_calls_total_example =
    log_calls_total three_calls (omega arith, (tt, (omega arith, (tt, (omega arith, tt)))))
