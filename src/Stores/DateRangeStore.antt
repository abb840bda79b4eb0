-- ===== src/Stores/DateRangeStore.antt =====
-- frontend/src/stores/date-range-store.ts. Times are in milliseconds; `iso` stands for
-- `toISOString`, and the clock is at least 90 days after 1970.
mod Ranges
use etl_nexus.Common.{ℕ, ◌-◌, ◌*◌, String, Option, none, some}

-- the presets but "custom"
pub data Period : Type 0 where
  hours_24 days_7 days_30 days_90 : Period

-- `DatePreset`
pub data Preset : Type 0 where
  last : Period → Preset
  custom : Preset

unfoldable pub preset_ms : Period → ℕ
preset_ms hours_24 = 24 * 60 * 60 * 1000
preset_ms days_7 = 7 * 24 * 60 * 60 * 1000
preset_ms days_30 = 30 * 24 * 60 * 60 * 1000
preset_ms days_90 = 90 * 24 * 60 * 60 * 1000

pub record DateRange : Type 0 where
  pub preset : Preset
  pub date_from : String
  pub date_to : String

-- the query parameters `date_from` and `date_to`
pub record DateParams : Type 0 where
  pub date_from : String
  pub date_to : String

module _ (iso : ℕ → String) where
  unfoldable pub compute_range : Period → ℕ → DateParams
  unfolding preset_ms
  compute_range period now = record { date_from = iso (now - preset_ms period); date_to = iso now }

  unfoldable pub set_preset : Period → ℕ → DateRange → DateRange
  unfolding compute_range
  set_preset period now s =
      let range = compute_range period now in
      record { preset = last period; date_from = range.date_from; date_to = range.date_to }

  -- the store as it is created at a time
  unfoldable pub initial_range : ℕ → DateRange
  unfolding compute_range
  initial_range now =
      let range = compute_range days_30 now in
      record { preset = last days_30; date_from = range.date_from; date_to = range.date_to }

unfoldable pub set_custom_range : String → String → DateRange → DateRange
set_custom_range from to s = record { preset = custom; date_from = from; date_to = to }

-- `useDateParams`
unfoldable pub use_date_params : DateRange → Option DateParams
use_date_params s = elim s.preset [
  | last days_30 ↦ none
  | last hours_24 ↦ some (record { date_from = s.date_from; date_to = s.date_to })
  | last days_7 ↦ some (record { date_from = s.date_from; date_to = s.date_to })
  | last days_90 ↦ some (record { date_from = s.date_from; date_to = s.date_to })
  | custom ↦ some (record { date_from = s.date_from; date_to = s.date_to })
]

abbrev period_text : Period → String
period_text hours_24 = "24h"
period_text days_7 = "7d"
period_text days_30 = "30d"
period_text days_90 = "90d"

-- `usePeriodLabel`
unfoldable pub use_period_label : DateRange → String
use_period_label s = elim s.preset [ last period ↦ period_text period | custom ↦ "custom" ]
