-- ===== src/Shared/DateRangePicker.antt =====
-- frontend/src/components/shared/DateRangePicker.tsx over the store of date ranges. JavaScript's
-- dates are a parameter: the local calendar fields of an ISO text, and the ISO text of a local one,
-- or none where `toISOString` throws. `decimal` stands for `String` at a number.
mod Applied
use Prim.Native.String
use Prim.Native.String.{len}
use etl_nexus.Common.{
  ℕ, ◌+◌, Bool, true, false, not, ◌&&◌, ◌==◌, String, Option, none, some, if◌then◌else◌, non_empty,
}
use etl_nexus.Stores.DateRangeStore.{
  Period, Preset, last, custom, DateRange, set_preset, set_custom_range,
}

-- `getFullYear`, `getMonth`, which counts from 0, `getDate`, `getHours` and `getMinutes`
pub record LocalTime : Type 0 where
  pub year : ℕ
  pub month : ℕ
  pub day : ℕ
  pub hours : ℕ
  pub minutes : ℕ

pub record LocalDates : Type 0 where
  pub fields_of : String → LocalTime
  pub to_iso : String → Option String
  pub decimal : ℕ → String

-- `padStart(2, "0")`
unfoldable pub pad_two : String → String
pad_two text = if len text == 0 then "00" else if len text == 1 then String.◌++◌ "0" text else text

unfoldable pub to_local_input : LocalDates → String → String
unfolding pad_two
to_local_input dates iso =
    let d = dates.fields_of iso in
    if non_empty iso
    then String.◌++◌ (dates.decimal d.year) (
        String.◌++◌ "-" (
          String.◌++◌ (pad_two (dates.decimal (d.month + 1))) (
            String.◌++◌ "-" (
              String.◌++◌ (pad_two (dates.decimal d.day)) (
                String.◌++◌ "T" (
                  String.◌++◌ (pad_two (dates.decimal d.hours))
                    (String.◌++◌ ":" (pad_two (dates.decimal d.minutes)))))))))
    else ""

-- the state of the component
pub record PickerState : Type 0 where
  pub show_custom : Bool
  pub local_from : String
  pub local_to : String

abbrev pub initial_picker : PickerState
initial_picker = record { show_custom = false; local_from = ""; local_to = "" }

-- the effect of another range in the store
unfoldable pub sync_effect : LocalDates → DateRange → PickerState → PickerState
unfolding to_local_input
sync_effect dates range s = elim range.preset [
  | last period ↦ s
  | custom ↦ record s {
    local_from = to_local_input dates range.date_from;
    local_to = to_local_input dates range.date_to;
  }
]

-- a preset's button at a time
unfoldable pub click_preset :
    (ℕ → String) → Period → ℕ → PickerState → DateRange → PickerState × DateRange
unfolding set_preset
click_preset iso period now s range =
    (record s { show_custom = false }, set_preset iso period now range)

-- the button "Custom", and a click outside of its popover
unfoldable pub click_custom : PickerState → PickerState
click_custom s = record s { show_custom = not s.show_custom }

unfoldable pub click_outside : PickerState → PickerState
click_outside s = record s { show_custom = false }

-- the fields of the popover
unfoldable pub set_local_from : String → PickerState → PickerState
set_local_from value s = record s { local_from = value }

unfoldable pub set_local_to : String → PickerState → PickerState
set_local_to value s = record s { local_to = value }

-- what a click on "Apply" does: the exception leaves everything as it is
pub data ApplyResult : Type 0 where
  thrown : ApplyResult
  returned : PickerState → DateRange → ApplyResult

abbrev pub apply_both : Option String → Option String → PickerState → DateRange → ApplyResult
apply_both none to s range = thrown
apply_both (some from) none s range = thrown
apply_both (some from) (some to) s range =
    returned (record s { show_custom = false }) (set_custom_range from to range)

-- `handleApplyCustom`
unfoldable pub handle_apply_custom : LocalDates → PickerState → DateRange → ApplyResult
unfolding set_custom_range
handle_apply_custom dates s range =
    if non_empty s.local_from && non_empty s.local_to
    then apply_both (dates.to_iso s.local_from) (dates.to_iso s.local_to) s range
    else returned s range
