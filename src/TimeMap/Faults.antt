-- ===== src/TimeMap/Faults.antt =====
-- Where TimeMap.cpp reads out of its arrays.
use nermalproxy.Prelude.{ℕ, suc, ◌+◌, ◌*◌, ◌≤◌, ◌<◌, ◌≡◌, ◌⊎◌}
use nermalproxy.TimeMap.{days, ℤ, pos, negsuc}

-- What a number adds, and what it takes away.
abbrev pub gain : ℤ → ℕ
gain (pos n) = n
gain (negsuc n) = 0

abbrev pub loss : ℤ → ℕ
loss (pos n) = 0
loss (negsuc n) = suc n

-- The time is half an hour or more before midnight.
abbrev pub IsBefore : ℤ → ℤ → Type 0
IsBefore hour minute = gain hour * 60 + gain minute + 30 ≤ loss hour * 60 + loss minute

-- The days, hours and minutes for which the look-up leaves the arrays.
abbrev pub ReadsOutside : ℤ → ℤ → ℤ → Type 0
ReadsOutside (pos day) hour minute = (day ≡ days) ⊎ ((day < days) × IsBefore hour minute)
ReadsOutside (negsuc day) hour minute = Unit
