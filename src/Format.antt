-- ===== src/Format.antt =====
-- frontend/src/lib/format.ts. A duration is given in thousandths of a second, a date in milliseconds
-- from 1970 on. What `Date`, `toLocaleDateString` and `toFixed` give, and the decimal notation of a
-- number, are parameters.
mod Durations
mod Times
mod Names
mod Tests
use etl_nexus.Common.{
  ℕ, ◌+◌, ◌-◌, ◌*◌, ◌/◌, ◌%◌, max, Bool, true, false, not, String, List, [], ◌∷◌, ◌++◌, Option,
  none, some, if◌then◌else◌, ◌==◌, ltb, leb, non_empty, Text, codes, ◌&&◌, ◌||◌,
}

-- The five texts that `formatDuration` may give, with their numbers.
pub data Duration : Type 0 where
  seconds minutes hours : ℕ → Duration
  minutes_seconds hours_minutes : ℕ → ℕ → Duration

-- `Math.round(ms / 1000)`
abbrev pub round_thousandths : ℕ → ℕ
round_thousandths ms = (ms + 500) / 1000

unfoldable pub duration_of : ℕ → Duration
duration_of ms =
    let mins = ms / 60000 in
    let secs = round_thousandths (ms % 60000) in
    let hrs = mins / 60 in
    let remain_mins = mins % 60 in
    if ltb ms 60000
    then seconds (round_thousandths ms)
    else if ltb mins 60
    then if ltb 0 secs then minutes_seconds mins secs else minutes mins
    else if ltb 0 remain_mins
    then hours_minutes hrs remain_mins
    else hours hrs

-- The three texts of `formatCount`; `toFixed(1)` is given by the number of its tenths.
pub data Count : Type 0 where
  plain thousands millions : ℕ → Count

-- `to_fixed n d` is the number of tenths that `(n / d).toFixed(1)` shows.
unfoldable pub count_of : (ℕ → ℕ → ℕ) → ℕ → Count
count_of to_fixed count =
    if leb 1000000 count
    then millions (to_fixed count 1000000)
    else if leb 1000 count
    then thousands (to_fixed count 1000)
    else plain count

module _ (print : ℕ → Text) where
  unfoldable pub show_duration : Duration → Text
  show_duration (seconds s) = print s ++ codes "s"
  show_duration (minutes m) = print m ++ codes "m"
  show_duration (minutes_seconds m s) = print m ++ codes "m " ++ print s ++ codes "s"
  show_duration (hours h) = print h ++ codes "h"
  show_duration (hours_minutes h m) = print h ++ codes "h " ++ print m ++ codes "m"

  unfoldable pub format_duration : ℕ → Text
  unfolding duration_of show_duration
  format_duration ms = show_duration (duration_of ms)

  abbrev show_tenths : ℕ → Text
  show_tenths n = print (n / 10) ++ codes "." ++ print (n % 10)

  unfoldable pub show_count : Count → Text
  show_count (plain n) = print n
  show_count (thousands n) = show_tenths n ++ codes "k"
  show_count (millions n) = show_tenths n ++ codes "M"

  unfoldable pub format_count : (ℕ → ℕ → ℕ) → ℕ → Text
  unfolding count_of show_count
  format_count to_fixed count = show_count (count_of to_fixed count)

-- `d` or its upper case letter
abbrev is_letter : ℕ → ℕ → Bool
is_letter d c = c == d || c + 32 == d

-- the whole text matches /^Dummy$/i
unfoldable pub is_dummy : Text → Bool
is_dummy (a ∷ b ∷ c ∷ d ∷ e ∷ []) =
    is_letter b'd' a && is_letter b'u' b && is_letter b'm' c && is_letter b'm' d && is_letter b'y' e
is_dummy _ = false

unfoldable pub strip_dummy : Text → Text
unfolding is_dummy
strip_dummy [] = []
strip_dummy (c ∷ s) = let rest = strip_dummy s in if is_dummy (c ∷ s) then [] else c ∷ rest

-- `Date` and its formats; `parse` gives nothing where the date is invalid.
pub record Dates : Type 0 where
  pub parse : String → Option ℕ
  pub now : ℕ
  pub full_year : ℕ → ℕ
  pub month_day : ℕ → Text
  pub month_day_year : ℕ → Text
  pub month_day_time : ℕ → Text
  pub time : ℕ → Text

abbrev pub em_dash : Text
em_dash = 8212 ∷ []

-- `!iso`, then `new Date(iso)` and `isNaN`
unfoldable pub date_of : Dates → Option String → Option ℕ
date_of dates none = none
date_of dates (some iso) = if non_empty iso then dates.parse iso else none

abbrev format_or {ℓ} : {A : Type ℓ} → A → (ℕ → A) → Option ℕ → A
format_or default show none = default
format_or default show (some t) = show t

-- The result of `formatFreshness`.
pub record Freshness : Type 0 where
  pub label : Text
  pub stale : Bool
  pub class_name : String

abbrev pub never : Freshness
never = record { label = codes "never"; stale = true; class_name = "text-slate-600" }

module _ (dates : Dates) where
  unfoldable pub format_date_short : Option String → Text
  unfolding date_of
  format_date_short iso =
      format_or em_dash
        (λ d.
          if not (dates.full_year d == dates.full_year dates.now)
          then dates.month_day_year d
          else dates.month_day d)
        (date_of dates iso)

  unfoldable pub format_date_full : Option String → Text
  unfolding date_of
  format_date_full iso =
      format_or em_dash (λ d. dates.month_day_time d ++ codes " UTC") (date_of dates iso)

  unfoldable pub format_time_utc : Option String → Text
  unfolding date_of
  format_time_utc iso = format_or em_dash (λ d. dates.time d ++ codes " UTC") (date_of dates iso)

  unfoldable pub format_date_admin : Option String → Text
  unfolding date_of
  format_date_admin iso = format_or em_dash dates.month_day_year (date_of dates iso)

module _ (print : ℕ → Text) (dates : Dates) where
  -- From a date on. For a date that is still to come the source has a negative difference, and here
  -- it is 0; the text is the same.
  unfoldable pub relative_time_of : ℕ → Text
  relative_time_of d =
      let diff_sec = (dates.now - d) / 1000 in
      let diff_min = diff_sec / 60 in
      let diff_hour = diff_min / 60 in
      let diff_day = diff_hour / 24 in
      if ltb diff_sec 60
      then codes "just now"
      else if ltb diff_min 60
      then print diff_min ++ codes "m ago"
      else if ltb diff_hour 24
      then print diff_hour ++ codes "h ago"
      else if ltb diff_day 7
      then print diff_day ++ codes "d ago"
      else dates.month_day_year d

  unfoldable pub format_relative_time : Option String → Text
  unfolding date_of relative_time_of
  format_relative_time iso = format_or em_dash relative_time_of (date_of dates iso)

  -- The comparisons of the source's fractions of hours and days are comparisons of milliseconds.
  unfoldable pub freshness_of : ℕ → Freshness
  freshness_of d =
      let diff_ms = dates.now - d in
      let h = diff_ms / 3600000 in
      let m = diff_ms / 60000 % 60 in
      if ltb diff_ms (4 * 3600000)
      then record {
        label = if ltb 0 h then print h ++ codes "h ago" else print (max m 1) ++ codes "m ago";
        stale = false;
        class_name = "text-emerald-400";
      }
      else if ltb diff_ms (24 * 3600000)
      then record { label = print h ++ codes "h ago"; stale = false; class_name = "text-slate-400" }
      else if ltb diff_ms (72 * 3600000)
      then record {
        label = print (diff_ms / 86400000) ++ codes "d ago";
        stale = false;
        class_name = "text-amber-400";
      }
      else record {
        label = print (diff_ms / 86400000) ++ codes "d ago";
        stale = true;
        class_name = "text-rose-400";
      }

  unfoldable pub format_freshness : Option String → Freshness
  unfolding date_of freshness_of
  format_freshness iso = format_or never freshness_of (date_of dates iso)
