-- ===== src/Tests/StatsTests.antt =====
-- The statistics of UserAuth.cpp and the clock at concrete values.
use nermalproxy.Prelude.{◌≡◌, refl, List, [], ◌∷◌}
use nermalproxy.Clock.{Timespec}
use nermalproxy.CText.{codes, str_eq, digits_of}
use nermalproxy.Stats.{
  UserStats, GlobalStats, with_site, with_stats, site_line, site_lines, user_log, user_logs,
  log_file_name, log_and_reset,
}
use nermalproxy.Stats.Records.{stats_of, site_of}
use nermalproxy.Stats.Rotation.{working}

program : Unit {0}
unfolding str_eq digits_of with_site with_stats site_line site_lines log_file_name user_log
    user_logs log_and_reset stats_of site_of
program = tt

abbrev usage : List UserStats
usage =
    record {
      user_name = codes "user2";
      stats =
          record {
            host_name = codes "a.com";
            rx_bytes = 120;
            tx_bytes = 7;
            total_time = 1500;
            connections = 2;
          }
          ∷ [];
    }
    ∷ []

abbrev stats : GlobalStats
stats = record { user_stats = usage; last_log_time = 5; log_number = 30 }

log_test :
    (log_and_reset working 9 stats).1
    ≡ record {
      file_name = codes "user2_30.csv";
      text = codes "host,rxBytes,txBytes,totalTime,connections\na.com,120,7,1500,2\n";
    }
      ∷ []
unfolding program
log_test = refl

abbrev earlier : Timespec
earlier = record { tv_sec = 7; tv_nsec = 995000000 }

abbrev later : Timespec
later = record { tv_sec = 8; tv_nsec = 5000000 }
