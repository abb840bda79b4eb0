-- ===== src/Format/Times.antt =====
-- The two texts for the time that has passed, and the texts for a date that is none.
use etl_nexus.Common.{ℕ, ◌-◌, ◌*◌, ◌/◌, ◌≤◌, ◌<◌, leb, ◌≡◌, arith, Option, none, String, Text}
use etl_nexus.Format.{
  Dates, date_of, em_dash, never, relative_time_of, freshness_of, format_date_short,
  format_date_full, format_time_utc, format_date_admin, format_relative_time, format_freshness,
}

module _ (print : ℕ → Text) (dates : Dates) where
  -- From one minute to seven days after a date, the freshness has the label of the relative time.
  pub freshness_of-relative_time_of :
      (d : ℕ)
      → 60000 ≤ dates.now - d
      → dates.now - d < 7 * 86400000
      → (freshness_of print dates d).label ≡ relative_time_of print dates d
  unfolding freshness_of relative_time_of
  freshness_of-relative_time_of d lower upper =
      let minutes : (dates.now - d) / 1000 / 60 ≡ (dates.now - d) / 60000 = omega arith in
      let hours : (dates.now - d) / 1000 / 60 / 60 ≡ (dates.now - d) / 3600000 = omega arith in
      let days : (dates.now - d) / 1000 / 60 / 60 / 24 ≡ (dates.now - d) / 86400000 = omega arith in
      ground arith

  -- A date is stale three days after it, and not before.
  pub freshness_of_stale :
      (d : ℕ) → (freshness_of print dates d).stale ≡ leb (72 * 3600000) (dates.now - d)
  unfolding freshness_of
  freshness_of_stale d = ground arith

  -- Where the date is missing, empty or not a date, each of the five texts is a dash, and the
  -- freshness says "never" and is stale.
  pub formats_without_date :
      (iso : Option String)
      → date_of dates iso ≡ none
      → (format_date_short dates iso ≡ em_dash)
        × ((format_date_full dates iso ≡ em_dash)
            × ((format_time_utc dates iso ≡ em_dash)
                × ((format_date_admin dates iso ≡ em_dash)
                    × ((format_relative_time print dates iso ≡ em_dash)
                        × (format_freshness print dates iso ≡ never)))))
  unfolding format_date_short format_date_full format_time_utc format_date_admin
      format_relative_time format_freshness
  formats_without_date iso e = ground arith
