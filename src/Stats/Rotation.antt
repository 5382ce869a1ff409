-- ===== src/Stats/Rotation.antt =====
-- `LogAndReset` and `ReadyToLog`: what is written, under which number, and when again.
use nermalproxy.Prelude.{
  ℕ, ◌+◌, ◌-◌, ◌*◌, ◌%◌, ◌^◌, ◌≤◌, ◌<◌, ◌≡◌, refl, true, List, [], ◌∷◌, ◌++◌, map, arith, ltb, ◌==◌,
  if◌then◌else◌, length,
}
use nermalproxy.Stats.{
  UserStats, GlobalStats, header_string, LogFile, Disk, log_file_name, site_lines, user_logs,
  log_and_reset, ready_to_log,
}

-- After a dump the next is due once more than a day of milliseconds has passed, at 64-bit times in order.
pub ready-log_and_reset :
    (disk : Disk) (now later : ℕ) (g : GlobalStats)
    → now ≤ later
    → later < 2 ^ 64
    → ready_to_log later (log_and_reset disk now g).0 ≡ ltb (24 * 60 * 60 * 1000) (later - now)
unfolding log_and_reset ready_to_log
ready-log_and_reset disk now later g h k =
    let e : (later + 2 ^ 64 - now) % 2 ^ 64 ≡ later - now = omega arith in rw e

-- The users with statistics.
abbrev pub active : List UserStats → List UserStats
active [] = []
active (u ∷ us) = if length u.stats == 0 then active us else u ∷ active us

-- The file of a user.
abbrev pub file_of : ℕ → UserStats → LogFile
file_of number u = record {
  file_name = log_file_name u number;
  text = header_string ++ site_lines u.stats;
}

-- Every file opens, and every header can be written.
abbrev pub working : Disk
working = record { opens = λ _. true; accepts_header = λ _. true }

user_logs-active :
    (us : List UserStats) (number : ℕ)
    → user_logs working us number ≡ map (file_of number) (active us)
unfolding user_logs
user_logs-active [] number = refl
user_logs-active (u ∷ us) number = ground (arith, user_logs-active us number)

-- On a disk that works, a dump writes one file for each user with statistics, under the number
-- of the log, with the header and a line for each host; and it writes no other file.
pub log_and_reset_files :
    (now : ℕ) (g : GlobalStats)
    → (log_and_reset working now g).1 ≡ map (file_of g.log_number) (active g.user_stats)
unfolding log_and_reset
log_and_reset_files now g = user_logs-active g.user_stats g.log_number
