-- ===== src/Clock.antt =====
-- Timestamp.cpp: the monotonic clock as a 64-bit count.
use nermalproxy.Prelude.{ℕ, ◌+◌, ◌*◌, ◌/◌, ◌%◌, ◌^◌, ◌≤◌, ◌<◌, ◌≡◌, ◌⊎◌, arith}

-- What `clock_gettime(CLOCK_MONOTONIC)` fills in.
pub record Timespec : Type 0 where
  pub tv_sec : ℕ
  pub tv_nsec : ℕ

unfoldable pub timestamp : Timespec → ℕ
timestamp ts = (ts.tv_sec * 1000 + ts.tv_nsec / 10000000) % 2 ^ 64

-- A reading of the clock: whole nanoseconds below a second, and under 2^50 seconds since boot.
pub record IsReading (ts : Timespec) : Type 0 where
  pub subsecond : ts.tv_nsec < 1000000000
  pub uptime : ts.tv_sec < 2 ^ 50

-- `a` is not later than `b`.
abbrev pub NotLater : Timespec → Timespec → Type 0
NotLater a b = (a.tv_sec < b.tv_sec) ⊎ ((a.tv_sec ≡ b.tv_sec) × (a.tv_nsec ≤ b.tv_nsec))

-- On readings of the monotonic clock the stamp never goes back.
pub timestamp_mono :
    (a b : Timespec) → IsReading a → IsReading b → NotLater a b → timestamp a ≤ timestamp b
unfolding timestamp
timestamp_mono a b p q h = omega arith

-- The time in whole milliseconds.
abbrev pub milliseconds : Timespec → ℕ
milliseconds ts = ts.tv_sec * 1000 + ts.tv_nsec / 1000000

-- On a reading of the clock the stamp is below the milliseconds by nine for every ten
-- milliseconds of the current second, and by what is left of ten: it counts
-- hundredths of a second where the milliseconds belong.
pub timestamp_lag :
    (ts : Timespec)
    → IsReading ts
    → timestamp ts + ts.tv_nsec / 10000000 * 9 + ts.tv_nsec / 1000000 % 10 ≡ milliseconds ts
unfolding timestamp
timestamp_lag ts h = omega arith
