-- ===== src/TimeMap/Week.antt =====
-- A week of schedules: TimeMap.cpp, `WeeklyAccess`.
use nermalproxy.Prelude.{
  le→ltb-false, Bool, ℕ, zero, suc, ◌+◌, ◌*◌, ◌/◌, ◌<◌, ◌≡◌, refl, sym, ◌∙◌, inl, inr, true, List,
  [], ◌∷◌, some, arith, ◌==◌, ==_iff, if◌then◌else◌, length, get_elem?, get_elem?_lt,
  get_elem?-set_self, get_elem?-set_ne, length-set, get_elem?-replicate, set, All, done, Bool-cases,
}
use nermalproxy.CText.{Bytes}
use nermalproxy.TimeMap.{
  ℤ, pos, interval_of, intervals, days, TimeMap, new_time_map, init_from_string, time_permitted,
  WeeklyAccess, new_weekly_access, index_day, init_day_from_string, week_permitted,
}
use nermalproxy.TimeMap.Schedule.{
  permits, IsDay, init-taken, permitted-init, time_permitted_get, init-IsDay, time_permitted-some,
}

pub record IsWeek (w : WeeklyAccess) : Type 0 where
  pub seven : length w.access_map ≡ days
  pub each : All IsDay w.access_map

pub index_day-some :
    (maps : List TimeMap) (day : ℕ) {m : TimeMap}
    → get_elem? maps day ≡ some m
    → index_day maps day ≡ done m
unfolding index_day
index_day-some maps day e = rw (e, index_day)

pub All-get :
    (maps : List TimeMap) (i : ℕ) {m : TimeMap}
    → All IsDay maps
    → get_elem? maps i ≡ some m
    → IsDay m
All-get [] i a e = cc
All-get (x ∷ maps) zero a e = ground arith
All-get (x ∷ maps) (suc i) a e = All-get maps i a.1 e

pub All-set :
    (maps : List TimeMap) (i : ℕ) (m : TimeMap)
    → All IsDay maps
    → IsDay m
    → All IsDay (set maps i m)
All-set [] i m a h = tt
All-set (x ∷ maps) zero m a h = (h, a.1)
All-set (x ∷ maps) (suc i) m a h = (a.0, All-set maps i m a.1 h)

pub week_permitted_get :
    (w : WeeklyAccess) (day : ℕ) (hour minute : ℤ) {m : TimeMap}
    → day < days
    → get_elem? w.access_map day ≡ some m
    → week_permitted w (pos day) hour minute ≡ time_permitted m hour minute
unfolding week_permitted
week_permitted_get w day hour minute h e =
    rw (le→ltb-false days day (omega arith), index_day-some w.access_map day e)

init_day_get :
    (w : WeeklyAccess) (day : ℕ) (s : Bytes) {m : TimeMap}
    → day < days
    → length s ≡ intervals
    → get_elem? w.access_map day ≡ some m
    → init_day_from_string w day s
      ≡ done (record { access_map = set w.access_map day (init_from_string m s).0 }, true)
unfolding init_day_from_string
init_day_get w day s {m} h len e =
    rw (le→ltb-false days day (omega arith), index_day-some w.access_map day e, init-taken m s len)

-- In a whole week, a text of 48 letters is taken for any day. Afterwards the week is whole, that
-- day goes by the text, and every other day is as before.
pub week_permitted-init_day_from_string :
    (w : WeeklyAccess) (day other : ℕ) (s : Bytes) (hour minute c : ℕ)
    → IsWeek w
    → day < days
    → other < days
    → length s ≡ intervals
    → hour < 24
    → minute < 60
    → get_elem? s (hour * 2 + minute / 30) ≡ some c
    → (w' : WeeklyAccess) × (init_day_from_string w day s ≡ done (w', true))
      × IsWeek w'
      × (week_permitted w' (pos other) (pos hour) (pos minute) ≡ (
          if other == day
          then done (permits c)
          else week_permitted w (pos other) (pos hour) (pos minute)))
week_permitted-init_day_from_string w day other s hour minute c v h o len hh hm e =
    let (m, found) = get_elem?_lt w.access_map day (omega (arith, v.seven)) in
    let (m2, found2) = get_elem?_lt w.access_map other (omega (arith, v.seven)) in
    let m' = (init_from_string m s).0 in
    let w' : WeeklyAccess = record { access_map = set w.access_map day m' } in
    let day_ok = All-get w.access_map day v.each found in
    (
      w',
      init_day_get w day s h len found,
      record {
        seven = length-set w.access_map day m' ∙ v.seven;
        each = All-set w.access_map day m' v.each (init-IsDay m s day_ok);
      },
      elim (Bool-cases (other == day)) [
        | inl same ↦
            rw (same, (==_iff other day).0 same)
              (week_permitted_get w' day (pos hour) (pos minute) h
                  (get_elem?-set_self w.access_map day m' (omega (arith, v.seven)))
                ∙ (permitted-init m s hour minute c day_ok len hh hm e).2)
        | inr differ ↦ rw differ (
            week_permitted_get w' other (pos hour) (pos minute) o
              (get_elem?-set_ne w.access_map day other m' (λ q. ground arith) ∙ found2)
            ∙ sym (week_permitted_get w other (pos hour) (pos minute) o found2))
      ],
    )

-- A new week is whole, and permits every minute of every day.
pub new-permits :
    (day hour minute : ℕ)
    → day < days
    → hour < 24
    → minute < 60
    → IsWeek new_weekly_access
      × (week_permitted new_weekly_access (pos day) (pos hour) (pos minute) ≡ done true)
unfolding new_weekly_access new_time_map
new-permits day hour minute h k l = (
  record { seven = refl; each = omega arith },
  week_permitted_get new_weekly_access day (pos hour) (pos minute) h
        (get_elem?-replicate days new_time_map day h)
      ∙ time_permitted_get new_time_map hour minute k l
          (get_elem?-replicate intervals true (hour * 2 + minute / 30) (omega arith)),
)

-- In a whole week the look-up of a day of the week gives an answer.
pub week_permitted_done :
    (w : WeeklyAccess) (day hour minute : ℕ)
    → IsWeek w
    → day < days
    → (b : Bool) × (week_permitted w (pos day) (pos hour) (pos minute) ≡ done b)
unfolding interval_of
week_permitted_done w day hour minute v h =
    let (m, found) = get_elem?_lt w.access_map day (omega (arith, v.seven)) in
    let (b, e) =
      time_permitted-some m (pos hour) (pos minute) (All-get w.access_map day v.each found) refl in
    (b, week_permitted_get w day (pos hour) (pos minute) h found ∙ e)
