-- ===== src/Stores/DateRangeStore/Ranges.antt =====
-- What the query parameters say after any sequence of choices.
use etl_nexus.Common.{ℕ, String, Option, none, some, ◌≡◌, refl}
use etl_nexus.Stores.DateRangeStore.{
  Period, hours_24, days_7, days_30, days_90, Preset, last, custom, DateRange, DateParams,
  compute_range, set_preset, initial_range, set_custom_range, use_date_params,
}

module _ (iso : ℕ → String) where
  -- the choices of the user, each preset at the time it is chosen
  pub data Choices (start : ℕ) : DateRange → Type 0 where
    created : Choices start (initial_range iso start)
    preset_at :
        {s : DateRange}
        → Choices start s
        → (period : Period) (now : ℕ) → Choices start (set_preset iso period now s)
    custom_to :
        {s : DateRange}
        → Choices start s
        → (from to : String) → Choices start (set_custom_range from to s)

  -- The parameters are left out at 30 days, and else they are those of the chosen period at the time of the choice.
  abbrev pub Says : Preset → Option DateParams → Type 0
  Says (last days_30) params = params ≡ none
  Says (last hours_24) params = (now : ℕ) × (params ≡ some (compute_range iso hours_24 now))
  Says (last days_7) params = (now : ℕ) × (params ≡ some (compute_range iso days_7 now))
  Says (last days_90) params = (now : ℕ) × (params ≡ some (compute_range iso days_90 now))
  Says custom params = (range : DateParams) × (params ≡ some range)

  set_preset-Says :
      (period : Period) (now : ℕ) (s : DateRange)
      → Says (last period) (use_date_params (set_preset iso period now s))
  unfolding use_date_params set_preset compute_range
  set_preset-Says hours_24 now s = (now, refl)
  set_preset-Says days_7 now s = (now, refl)
  set_preset-Says days_30 now s = refl
  set_preset-Says days_90 now s = (now, refl)

  -- Whatever is chosen, the query parameters are left out if the preset is 30 days; at another
  -- preset they are the range of its length that ends at some time; at a custom range they are given.
  pub use_date_params-Says :
      (start : ℕ) {s : DateRange} → Choices start s → Says s.preset (use_date_params s)
  unfolding use_date_params set_preset initial_range set_custom_range
  use_date_params-Says start created = refl
  use_date_params-Says start (preset_at {s = s} before period now) = set_preset-Says period now s
  use_date_params-Says start (custom_to before from to) =
      (record { date_from = from; date_to = to }, refl)
