-- ===== src/Registry/SearchBox/Tests.antt =====
-- A query that is typed and handed over, and a list that comes back to the page.
use etl_nexus.Common.{[], ◌∷◌, ◌≡◌, refl}
use etl_nexus.Stores.DataProductStore.{DataProductState, initial_data_product}
use etl_nexus.Registry.SearchBox.{
  SearchBox, mounted_box, type_search, fire_search, active_filter_count,
}
use etl_nexus.Registry.SearchBox.Synced.{mounted, typed, fired, remounted, Waits, SearchRun-Waits}

abbrev typed_box : SearchBox
typed_box = type_search "orders" mounted_box

abbrev fired_box : SearchBox
fired_box = (fire_search typed_box initial_data_product).0

abbrev searching : DataProductState
searching = (fire_search typed_box initial_data_product).1

handed_over : searching.search_query ≡ "orders"
unfolding fire_search type_search
handed_over = refl

-- The field of a list that was left and shown again is empty, and so is the query 300 ms later.
cleared_by_remount : (fire_search mounted_box searching).1.search_query ≡ ""
unfolding fire_search
cleared_by_remount = refl

one_filter : active_filter_count (record initial_data_product { team_filters = "a" ∷ "b" ∷ [] }) ≡ 1
unfolding active_filter_count
one_filter = refl

SearchRun-Waits_example :
    Waits mounted_box.timer mounted_box.local_query searching.search_query
    × ((fire_search mounted_box searching).1.search_query ≡ mounted_box.local_query)
SearchRun-Waits_example =
    SearchRun-Waits (remounted (fired (typed "orders" (mounted initial_data_product))))
