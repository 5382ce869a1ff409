-- ===== src/Tests/TimeMapTests.antt =====
-- TimeMap.cpp at the schedule of default.conf.
use nermalproxy.Prelude.{◌≡◌, refl, true, false, done, fault, out_of_bounds}
use nermalproxy.CText.{Bytes, codes}
use nermalproxy.TimeMap.{
  pos, negsuc, interval_of, interval_between, time_permitted, new_weekly_access,
  init_day_from_string, week_permitted,
}

program : Unit {0}
unfolding interval_of interval_between time_permitted new_weekly_access init_day_from_string
    week_permitted
program = tt

abbrev sunday : Bytes
sunday = codes "----XXXXXXXX------------------------------------"

day_seven : week_permitted new_weekly_access (pos 7) (pos 0) (pos 0) ≡ fault out_of_bounds
unfolding program
day_seven = refl

day_eight : week_permitted new_weekly_access (pos 8) (pos 0) (pos 0) ≡ done false
unfolding program
day_eight = refl

-- Twenty minutes before midnight is in the first interval of the day.
before_midnight : week_permitted new_weekly_access (pos 0) (pos 0) (negsuc 19) ≡ done true
unfolding program
before_midnight = refl
