-- ===== src/Stores/DataProductStore.antt =====
-- frontend/src/stores/data-product-store.ts
mod Filters
mod Tests
use etl_nexus.Common.{Bool, false, String, List, [], Option, none, has, add, delete, if◌then◌else◌}

pub record DataProductState : Type 0 where
  pub selected_product_id : Option String
  pub search_query : String
  pub filters_open : Bool
  pub team_filters : List String
  pub schedule_filters : List String

pub data Dimension : Type 0 where
  team schedule : Dimension

abbrev pub initial_data_product : DataProductState
initial_data_product = record {
  selected_product_id = none;
  search_query = "";
  filters_open = false;
  team_filters = [];
  schedule_filters = [];
}

-- The second part is the value that `window.location.hash` is set to.
unfoldable pub set_selected_product_id :
    Option String → DataProductState → DataProductState × String
set_selected_product_id id s = (record s { selected_product_id = id }, "data-products")

unfoldable pub set_search_query : String → DataProductState → DataProductState
set_search_query query s = record s { search_query = query }

unfoldable pub set_filters_open : Bool → DataProductState → DataProductState
set_filters_open is_open s = record s { filters_open = is_open }

-- A copy of the set with the value taken out if it is there, and put in if not.
unfoldable pub toggle : String → List String → List String
unfolding has add delete
toggle value set = if has value set then delete value set else add value set

unfoldable pub toggle_filter : Dimension → String → DataProductState → DataProductState
unfolding toggle
toggle_filter team value s = record s { team_filters = toggle value s.team_filters }
toggle_filter schedule value s = record s { schedule_filters = toggle value s.schedule_filters }

unfoldable pub clear_all_filters : DataProductState → DataProductState
clear_all_filters s = record s { team_filters = []; schedule_filters = [] }
