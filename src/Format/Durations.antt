-- ===== src/Format/Durations.antt =====
-- Durations and counts: what the numbers of the text say.
use etl_nexus.Common.{ℕ, ◌+◌, ◌*◌, ◌/◌, ◌%◌, ◌≤◌, ◌<◌, if◌then◌else◌, ltb, ◌≡◌, arith}
use etl_nexus.Format.{
  Duration, seconds, minutes, hours, minutes_seconds, hours_minutes, duration_of, Count, plain,
  thousands, millions, count_of,
}

-- the time that the text of a duration says, in seconds
abbrev pub said_seconds : Duration → ℕ
said_seconds (seconds s) = s
said_seconds (minutes m) = 60 * m
said_seconds (minutes_seconds m s) = 60 * m + s
said_seconds (hours h) = 3600 * h
said_seconds (hours_minutes h m) = 3600 * h + 60 * m

-- No number of a text reaches the next unit, and none after the first is 0.
abbrev pub IsCanonical : Duration → Type 0
IsCanonical (seconds s) = s < 60
IsCanonical (minutes m) = m < 60
IsCanonical (minutes_seconds m s) = (m < 60) × ((0 < s) × (s < 60))
IsCanonical (hours h) = 0 < h
IsCanonical (hours_minutes h m) = (0 < h) × ((0 < m) × (m < 60))

-- For a whole number of seconds the text is exact below an hour and rounded down to minutes from an
-- hour on, and no number in it reaches the next unit.
pub duration_of_exact :
    (s : ℕ)
    → (said_seconds (duration_of (1000 * s)) ≤ s)
      × ((s < said_seconds (duration_of (1000 * s)) + (if ltb s 3600 then 1 else 60))
          × IsCanonical (duration_of (1000 * s)))
unfolding duration_of
duration_of_exact s = ground arith

-- In the last half of a second of a minute, below an hour, the text says 60 seconds instead of one
-- minute more.
pub duration_of_sixty :
    (ms : ℕ)
    → 60000 ≤ ms
    → ms < 3600000
    → 59500 ≤ ms % 60000
    → duration_of ms ≡ minutes_seconds (ms / 60000) 60
unfolding duration_of
duration_of_sixty ms lower upper late =
    let secs : (ms % 60000 + 500) / 1000 ≡ 60 = omega arith in ground arith

-- `toFixed(1)` gives a number of tenths that is nearest, at the two divisors of the source.
pub record IsNearest (to_fixed : ℕ → ℕ → ℕ) : Type 0 where
  pub thousands_below : (n : ℕ) → 20 * n ≤ 2 * (to_fixed n 1000 * 1000) + 1000
  pub thousands_above : (n : ℕ) → 2 * (to_fixed n 1000 * 1000) ≤ 20 * n + 1000
  pub millions_below : (n : ℕ) → 20 * n ≤ 2 * (to_fixed n 1000000 * 1000000) + 1000000

-- ten times the number that the text of a count says
abbrev pub said_tenths : Count → ℕ
said_tenths (plain n) = 10 * n
said_tenths (thousands n) = 1000 * n
said_tenths (millions n) = 1000000 * n

-- If `toFixed(1)` gives a nearest number, then below 999,950 a text with the unit k says at most
-- 999.9k, from 999,951 up to a million it says 1000.0k, and every text is off by at most half of
-- the tenth of its unit.
pub count_of_said :
    (to_fixed : ℕ → ℕ → ℕ)
    → IsNearest to_fixed
    → (count : ℕ)
    → (count < 999950 → said_tenths (count_of to_fixed count) < 10000000)
      × ((999950 < count → count < 1000000 → count_of to_fixed count ≡ thousands 10000)
          × ((1000000 ≤ count → 20 * count ≤ 2 * said_tenths (count_of to_fixed count) + 1000000)
              × (count < 1000000 → 20 * count ≤ 2 * said_tenths (count_of to_fixed count) + 1000)))
unfolding count_of
count_of_said to_fixed near count =
    let k1 = near.thousands_below count in
    let k2 = near.thousands_above count in let m1 = near.millions_below count in ground arith
