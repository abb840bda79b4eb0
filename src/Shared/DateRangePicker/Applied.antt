-- ===== src/Shared/DateRangePicker/Applied.antt =====
-- What a click on "Apply" does.
use etl_nexus.Common.{
  false, ◌&&◌, String, Option, none, some, non_empty, if-holds, ◌≡◌, ◌⊎◌, inl, inr, refl,
}
use etl_nexus.Stores.DateRangeStore.{custom, DateRange, set_custom_range}
use etl_nexus.Shared.DateRangePicker.{
  LocalDates, PickerState, ApplyResult, thrown, returned, apply_both, handle_apply_custom,
}

-- the range of the store is the one of the fields, and the popover is closed
pub record IsApplied (dates : LocalDates) (s next : PickerState) (after : DateRange) : Type 0 where
  pub from : dates.to_iso s.local_from ≡ some after.date_from
  pub to : dates.to_iso s.local_to ≡ some after.date_to
  pub preset : after.preset ≡ custom
  pub closed : next.show_custom ≡ false

abbrev Does : LocalDates → PickerState → DateRange → ApplyResult → Type 0
Does dates s range thrown = (dates.to_iso s.local_from ≡ none) ⊎ (dates.to_iso s.local_to ≡ none)
Does dates s range (returned next after) =
    ((next ≡ s) × (after ≡ range)) ⊎ IsApplied dates s next after

apply_both-Does :
    (dates : LocalDates) (s : PickerState) (range : DateRange) (from to : Option String)
    → dates.to_iso s.local_from ≡ from
    → dates.to_iso s.local_to ≡ to
    → Does dates s range (apply_both from to s range)
unfolding set_custom_range
apply_both-Does dates s range none to e f = inl e
apply_both-Does dates s range (some from) none e f = inr f
apply_both-Does dates s range (some from) (some to) e f =
    inr (record { from = e; to = f; preset = refl; closed = refl })

-- "Apply" throws where one of the two dates is invalid; where a field is blank it changes nothing;
-- else the store has the custom range of the two fields and the popover is closed. Whether the
-- range starts before it ends is not looked at.
handle_apply_custom-Does :
    (dates : LocalDates) (s : PickerState) (range : DateRange)
    → Does dates s range (handle_apply_custom dates s range)
unfolding handle_apply_custom
handle_apply_custom-Does dates s range =
    if-holds (Does dates s range) (non_empty s.local_from && non_empty s.local_to)
      (λ _.
        apply_both-Does dates s range (dates.to_iso s.local_from) (dates.to_iso s.local_to) refl
          refl)
      (λ _. inl (refl, refl))
