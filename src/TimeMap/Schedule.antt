-- ===== src/TimeMap/Schedule.antt =====
-- What a schedule permits: TimeMap.cpp, against the text that it was read from.
use nermalproxy.Prelude.{
  lt→leb-false, ℕ, zero, suc, ◌+◌, ◌*◌, ◌/◌, ◌≤◌, ◌<◌, ◌≡◌, refl, ◌∙◌, inl, inr, Bool, true, false,
  not, ◌||◌, List, [], ◌∷◌, some, arith, leb, ◌==◌, lt→ltb, ==_iff, length, get_elem?, get_elem?_lt,
  get_elem?-set_self, get_elem?-set_ne, length-set, set, done, Bool-cases,
}
use native.Mathlib.Nat.{zero-add}
use nermalproxy.CText.{Bytes}
use nermalproxy.TimeMap.{
  intervals, TimeMap, new_time_map, fill, init_from_string, index_flag, ℤ, pos, interval_of,
  time_permitted,
}

-- A letter of a schedule denies its half hour if it is an `x`, in either case.
abbrev pub permits : ℕ → Bool
permits c = not (c == b'x' || c == b'X')

abbrev pub IsDay : TimeMap → Type 0
IsDay m = length m.access_intervals ≡ intervals

pub length-fill : (i : ℕ) (cs : Bytes) (flags : List Bool) → length (fill i cs flags) ≡ length flags
unfolding fill
length-fill i [] flags = refl
length-fill i (c ∷ cs) flags =
    ground (arith, length-fill (suc i) cs (set flags i (permits c)), length-set flags i (permits c))

fill_below :
    (i j : ℕ) (cs : Bytes) (flags : List Bool)
    → j < i
    → get_elem? (fill i cs flags) j ≡ get_elem? flags j
unfolding fill
fill_below i j [] flags h = refl
fill_below i j (c ∷ cs) flags h = ground (
  arith,
  fill_below (suc i) j cs (set flags i (permits c)),
  get_elem?-set_ne flags i j (permits c) (λ e. absurd (omega arith)),
)

fill_get :
    (i j : ℕ) (cs : Bytes) (flags : List Bool) (c : ℕ)
    → length flags ≡ intervals
    → i + length cs ≤ intervals
    → get_elem? cs j ≡ some c
    → get_elem? (fill i cs flags) (i + j) ≡ some (permits c)
unfolding fill
fill_get i j [] flags c l h e = cc
fill_get i zero (x ∷ cs) flags c l h e =
    let s : i + 0 ≡ i = omega arith in
    rw
      (
        s,
        lt→ltb i intervals (omega arith),
        fill_below (suc i) i cs (set flags i (permits x)) (omega arith),
      )
      (get_elem?-set_self flags i (permits x) (omega arith) ∙ ground arith)
fill_get i (suc j) (x ∷ cs) flags c l h e =
    let s : i + suc j ≡ suc i + j = omega arith in
    rw (s, lt→ltb i intervals (omega arith))
      (fill_get (suc i) j cs (set flags i (permits x)) c
        (omega (arith, length-set flags i (permits x))) (omega arith) e)

pub index_flag-some :
    (flags : List Bool) (i : ℕ) {b : Bool}
    → get_elem? flags i ≡ some b
    → index_flag flags i ≡ done b
unfolding index_flag
index_flag-some flags i e = rw (e, index_flag)

pub init-taken :
    (m : TimeMap) (s : Bytes)
    → length s ≡ intervals
    → init_from_string m s ≡ (record { access_intervals = fill 0 s m.access_intervals }, true)
unfolding init_from_string
init-taken m s h = rw ((==_iff _ _).1 h)

pub time_permitted_get :
    (m : TimeMap) (hour minute : ℕ) {b : Bool}
    → hour < 24
    → minute < 60
    → get_elem? m.access_intervals (hour * 2 + minute / 30) ≡ some b
    → time_permitted m (pos hour) (pos minute) ≡ done b
unfolding time_permitted interval_of
time_permitted_get m hour minute h k e =
    let s : (hour * 60 + minute) / 30 ≡ hour * 2 + minute / 30 = omega arith in
    rw (s, lt→leb-false intervals (hour * 2 + minute / 30) (omega arith))
      (index_flag-some m.access_intervals _ e)

-- On a whole day, a text of 48 letters is taken, and after it a minute of the day is
-- permitted unless the letter of its half hour is `x` or `X`.
pub permitted-init :
    (m : TimeMap) (s : Bytes) (hour minute c : ℕ)
    → IsDay m
    → length s ≡ intervals
    → hour < 24
    → minute < 60
    → get_elem? s (hour * 2 + minute / 30) ≡ some c
    → ((init_from_string m s).1 ≡ true)
      × IsDay (init_from_string m s).0
      × (time_permitted (init_from_string m s).0 (pos hour) (pos minute) ≡ done (permits c))
permitted-init m s hour minute c valid len h k e = rw (init-taken m s len) (
  refl,
  length-fill 0 s m.access_intervals ∙ valid,
  time_permitted_get _ hour minute h k (
      rw zero-add at
        (fill_get 0 (hour * 2 + minute / 30) s m.access_intervals c valid (omega arith) e)),
)

pub init-IsDay : (m : TimeMap) (s : Bytes) → IsDay m → IsDay (init_from_string m s).0
unfolding init_from_string
init-IsDay m s h = ground (arith, length-fill 0 s m.access_intervals)

pub IsDay-new_time_map : IsDay new_time_map
unfolding new_time_map
IsDay-new_time_map = refl

-- A whole day has an answer for every interval that is not negative.
pub time_permitted-some :
    (m : TimeMap) (hour minute : ℤ) {interval : ℕ}
    → IsDay m
    → interval_of hour minute ≡ some interval
    → (b : Bool) × (time_permitted m hour minute ≡ done b)
unfolding time_permitted
time_permitted-some m hour minute {interval} v found = elim (Bool-cases (leb intervals interval)) [
  | inl late ↦ (false, rw (found, time_permitted, late) refl)
  | inr early ↦
      let (b, flag) = get_elem?_lt m.access_intervals interval (ground arith) in
      (b, rw (found, time_permitted, early) (index_flag-some m.access_intervals interval flag))
]
