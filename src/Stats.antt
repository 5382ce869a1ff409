-- ===== src/Stats.antt =====
-- `SiteStats`, `UserStats` and `GlobalStats` of UserAuth.cpp: usage by user and host. A method that
-- returns a reference is a function that changes what the reference is to.
pub mod Records
pub mod Rotation
use nermalproxy.Prelude.{
  ℕ, zero, suc, ◌+◌, ◌-◌, ◌*◌, ◌/◌, ◌%◌, ◌^◌, Bool, true, false, not, List, [], ◌∷◌, ◌++◌, ltb,
  ◌==◌, if◌then◌else◌, length,
}
use nermalproxy.CText.{Bytes, codes, str_eq, decimal}

pub record SiteStats : Type 0 where
  pub host_name : Bytes
  pub rx_bytes : ℕ
  pub tx_bytes : ℕ
  pub total_time : ℕ
  pub connections : ℕ

abbrev pub new_site_stats : Bytes → SiteStats
new_site_stats host = record {
  host_name = host;
  rx_bytes = 0;
  tx_bytes = 0;
  total_time = 0;
  connections = 0;
}

-- Addition of `std::uint64_t`.
abbrev pub add_u64 : ℕ → ℕ → ℕ
add_u64 a b = (a + b) % 2 ^ 64

-- Subtraction of `std::uint64_t`.
abbrev pub sub_u64 : ℕ → ℕ → ℕ
sub_u64 a b = (a + 2 ^ 64 - b) % 2 ^ 64

abbrev pub add_rx_bytes : ℕ → SiteStats → SiteStats
add_rx_bytes n s = record s { rx_bytes = add_u64 s.rx_bytes n }

abbrev pub add_tx_bytes : ℕ → SiteStats → SiteStats
add_tx_bytes n s = record s { tx_bytes = add_u64 s.tx_bytes n }

abbrev pub increment_connections : SiteStats → SiteStats
increment_connections s = record s { connections = s.connections + 1 }

abbrev pub add_connection_time : ℕ → SiteStats → SiteStats
add_connection_time n s = record s { total_time = add_u64 s.total_time n }

pub record UserStats : Type 0 where
  pub user_name : Bytes
  pub stats : List SiteStats

abbrev pub new_user_stats : Bytes → UserStats
new_user_stats name = record { user_name = name; stats = [] }

-- `UserStats::GetStats`, with the change that is made through the reference.
unfoldable pub with_site : (SiteStats → SiteStats) → List SiteStats → Bytes → List SiteStats
with_site f [] host = f (new_site_stats host) ∷ []
with_site f (s ∷ ss) host = if str_eq s.host_name host then f s ∷ ss else s ∷ with_site f ss host

-- `GlobalStats::GetStats`, with the change that is made through the reference.
unfoldable pub with_stats :
    (SiteStats → SiteStats) → List UserStats → Bytes → Bytes → List UserStats
with_stats f [] username host = record { user_name = username; stats = with_site f [] host } ∷ []
with_stats f (u ∷ us) username host =
    if str_eq u.user_name username
    then record u { stats = with_site f u.stats host } ∷ us
    else u ∷ with_stats f us username host

-- The singleton, with the file's static `s_logNumber`.
pub record GlobalStats : Type 0 where
  pub user_stats : List UserStats
  pub last_log_time : ℕ
  pub log_number : ℕ

abbrev pub new_global_stats : ℕ → GlobalStats
new_global_stats now = record { user_stats = []; last_log_time = now; log_number = 0 }

abbrev pub log_frequency : ℕ
log_frequency = 3600 * 24

abbrev pub log_persistence : ℕ
log_persistence = 30

-- The text that `snprintf` leaves in an array of this size.
abbrev pub truncated : ℕ → Bytes → Bytes
truncated zero s = []
truncated (suc zero) s = []
truncated (suc (suc n)) [] = []
truncated (suc (suc n)) (c ∷ s) = c ∷ truncated (suc n) s

-- `SiteStats::LogToFile`: the line that is written.
unfoldable pub site_line : SiteStats → Bytes
site_line s = truncated 1024 (
    s.host_name
    ++ b','
      ∷ (decimal s.rx_bytes
          ++ b','
            ∷ (decimal s.tx_bytes
                ++ b',' ∷ (decimal s.total_time ++ b',' ∷ (decimal s.connections ++ b'\n' ∷ [])))))

-- A file that was opened for a log: its name, and what was written to it.
pub record LogFile : Type 0 where
  pub file_name : Bytes
  pub text : Bytes

-- What the file system does: which files open, and whether the header can be written.
pub record Disk : Type 0 where
  pub opens : Bytes → Bool
  pub accepts_header : Bytes → Bool

unfoldable pub site_lines : List SiteStats → Bytes
site_lines [] = []
site_lines (s ∷ ss) = site_line s ++ site_lines ss

abbrev pub header_string : Bytes
header_string = codes "host,rxBytes,txBytes,totalTime,connections\n"

unfoldable pub log_file_name : UserStats → ℕ → Bytes
log_file_name u number = truncated 256 (u.user_name ++ b'_' ∷ (decimal number ++ codes ".csv"))

-- `UserStats::LogToFile`: the files written, one at most.
unfoldable pub user_log : Disk → UserStats → ℕ → List LogFile
unfolding log_file_name
user_log disk u number =
    let name = log_file_name u number in
    if length u.stats == 0
    then []
    else if not (disk.opens name)
    then []
    else if not (disk.accepts_header name)
    then record { file_name = name; text = [] } ∷ []
    else record { file_name = name; text = header_string ++ site_lines u.stats } ∷ []

unfoldable pub user_logs : Disk → List UserStats → ℕ → List LogFile
unfolding user_log
user_logs disk [] number = []
user_logs disk (u ∷ us) number = user_log disk u number ++ user_logs disk us number

-- `DumpUserStats`
unfoldable pub dump_user_stats : Disk → List UserStats → Bytes → ℕ → List LogFile
unfolding user_log
dump_user_stats disk [] username number = []
dump_user_stats disk (u ∷ us) username number =
    if str_eq u.user_name username
    then user_log disk u number
    else dump_user_stats disk us username number

-- `LogAndReset`, at the time of the call.
unfoldable pub log_and_reset : Disk → ℕ → GlobalStats → GlobalStats × List LogFile
unfolding user_logs
log_and_reset disk now g = (
  record {
    user_stats = [];
    last_log_time = now;
    log_number = if ltb log_persistence (suc g.log_number) then 0 else suc g.log_number;
  },
  user_logs disk g.user_stats g.log_number,
)

unfoldable pub ready_to_log : ℕ → GlobalStats → Bool
ready_to_log now g = ltb (1000 * log_frequency) (sub_u64 now g.last_log_time)
