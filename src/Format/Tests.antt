-- ===== src/Format/Tests.antt =====
-- Some texts, and the conditions of the theorems at concrete numbers.
use etl_nexus.Common.{ℕ, ◌==◌, ◌+◌, ◌*◌, ◌/◌, if◌then◌else◌, ◌≡◌, refl, arith}
use etl_nexus.Format.{duration_of, hours_minutes}
use etl_nexus.Format.Durations.{IsNearest}

two_hours : duration_of 7261400 ≡ hours_minutes 2 1
unfolding duration_of
two_hours = refl

-- half up
abbrev half_up : ℕ → ℕ → ℕ
half_up n d = if d == 1000 then (10 * n + 500) / 1000 else (10 * n + 500000) / 1000000

half_up-IsNearest : IsNearest half_up
half_up-IsNearest = record {
  thousands_below = λ n. omega arith;
  thousands_above = λ n. omega arith;
  millions_below = λ n. omega arith;
}
