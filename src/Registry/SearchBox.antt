-- ===== src/Registry/SearchBox.antt =====
-- frontend/src/components/data-products/DataProductSearch.tsx: the search field above the list, its
-- timer of 300 ms, and the button of the filters. The field lives as long as the list is on the
-- page, the store longer.
mod Synced
mod Tests
use etl_nexus.Common.{
  ℕ, ◌+◌, Bool, true, false, not, String, List, Option, none, some, if◌then◌else◌, ◌===◌,
  non_empty_list,
}
use etl_nexus.Stores.DataProductStore.{DataProductState, set_search_query, set_filters_open}

-- the text in the field, and the text that the timer will hand to the store
pub record SearchBox : Type 0 where
  pub local_query : String
  pub timer : Option String

-- the first render and its effect
abbrev pub mounted_box : SearchBox
mounted_box = record { local_query = ""; timer = some "" }

-- the `onChange` of the field: a new text clears the timer and starts another
unfoldable pub type_search : String → SearchBox → SearchBox
type_search query box =
    if query === box.local_query then box else record { local_query = query; timer = some query }

abbrev pub hand_over : Option String → SearchBox → DataProductState → SearchBox × DataProductState
hand_over none box store = (box, store)
hand_over (some query) box store = (record box { timer = none }, set_search_query query store)

-- 300 ms after the last change
unfoldable pub fire_search : SearchBox → DataProductState → SearchBox × DataProductState
unfolding set_search_query
fire_search box store = hand_over box.timer box store

-- the button of the filters
unfoldable pub click_filters : DataProductState → DataProductState
unfolding set_filters_open
click_filters store = set_filters_open (not store.filters_open) store

abbrev one_if : Bool → ℕ
one_if true = 1
one_if false = 0

-- the number at the button
unfoldable pub active_filter_count : DataProductState → ℕ
active_filter_count store =
    one_if (non_empty_list store.team_filters) + one_if (non_empty_list store.schedule_filters)
