-- ===== src/TimeMap.antt =====
-- TimeMap.hpp and TimeMap.cpp: the schedule of a day in half-hour intervals, and of a week.
pub mod Schedule
pub mod Week
pub mod Faults
use nermalproxy.Prelude.{
  ℕ, suc, ◌+◌, ◌-◌, ◌*◌, ◌/◌, Bool, true, false, ◌||◌, List, [], ◌∷◌, Option, none, some, ltb, leb,
  not, ◌==◌, ◌&&◌, if◌then◌else◌, length, get_elem?, set, replicate, Outcome, done, fault,
  out_of_bounds, ◌>>=◌,
}
use nermalproxy.CText.{Bytes}

abbrev pub interval_time : ℕ
interval_time = 30

abbrev pub minutes_to_intervals : ℕ → ℕ → ℕ
minutes_to_intervals hours minutes = (hours * 60 + minutes) / interval_time

abbrev pub intervals : ℕ
intervals = minutes_to_intervals 24 0

-- An array of `intervals` flags.
pub record TimeMap : Type 0 where
  pub access_intervals : List Bool

-- The constructor `TimeMap::TimeMap`.
pub new_time_map : TimeMap
new_time_map = record { access_intervals = replicate intervals true }

-- The loop of `InitFromString`, from index `i` on; the text is what is left of `initString`.
pub fill : ℕ → Bytes → List Bool → List Bool
fill i [] flags = flags
fill i (c ∷ cs) flags =
    let rest = fill (suc i) cs (set flags i (not (c == b'x' || c == b'X'))) in
    if ltb i intervals then rest else flags

pub init_from_string : TimeMap → Bytes → TimeMap × Bool
unfolding fill
init_from_string m init =
    if not (length init == intervals)
    then (m, false)
    else (record { access_intervals = fill 0 init m.access_intervals }, true)

pub index_flag : List Bool → ℕ → Outcome Bool
index_flag flags i = elim (get_elem? flags i) [ none ↦ fault out_of_bounds | some b ↦ done b ]

-- A whole number, as the library spells it.
pub data ℤ : Type 0 where
  pos : ℕ → ℤ
  -- the number below zero by one more
  negsuc : ℕ → ℤ

-- `p - q` minutes in intervals, rounded towards zero; `none` is a negative number.
unfoldable pub interval_between : ℕ → ℕ → Option ℕ
interval_between p q =
    if leb q p
    then some ((p - q) / interval_time)
    else if ltb (q - p) interval_time
    then some 0
    else none

-- `MinutesToIntervals` of numbers that may be negative.
unfoldable pub interval_of : ℤ → ℤ → Option ℕ
interval_of (pos hour) (pos minute) = some (minutes_to_intervals hour minute)
interval_of (pos hour) (negsuc minute) = interval_between (hour * 60) (suc minute)
interval_of (negsuc hour) (pos minute) = interval_between minute (suc hour * 60)
interval_of (negsuc hour) (negsuc minute) = interval_between 0 (suc hour * 60 + suc minute)

unfoldable pub time_permitted : TimeMap → ℤ → ℤ → Outcome Bool
unfolding index_flag interval_of
time_permitted m hour minute = elim (interval_of hour minute) [
  | none ↦ fault out_of_bounds
  | some interval ↦
      if leb intervals interval then done false else index_flag m.access_intervals interval
]

abbrev pub days : ℕ
days = 7

-- An array of `days` schedules.
pub record WeeklyAccess : Type 0 where
  pub access_map : List TimeMap

unfoldable pub new_weekly_access : WeeklyAccess
unfolding new_time_map
new_weekly_access = record { access_map = replicate days new_time_map }

pub index_day : List TimeMap → ℕ → Outcome TimeMap
index_day maps day = elim (get_elem? maps day) [ none ↦ fault out_of_bounds | some m ↦ done m ]

-- `InitDayFromString`
unfoldable pub init_day_from_string : WeeklyAccess → ℕ → Bytes → Outcome (WeeklyAccess × Bool)
unfolding index_day init_from_string
init_day_from_string w day init = if ltb days day then done (w, false) else do
  m ← index_day w.access_map day
  let (m', good) = init_from_string m init
  done (record { access_map = set w.access_map day m' }, good)

-- `WeeklyAccess::PermittedAtTime`. The guard lets negative days through.
unfoldable pub week_permitted : WeeklyAccess → ℤ → ℤ → ℤ → Outcome Bool
unfolding index_day time_permitted
week_permitted w (pos day) hour minute =
    if ltb days day
    then done false
    else do m ← index_day w.access_map day; time_permitted m hour minute
week_permitted w (negsuc day) hour minute = fault out_of_bounds
