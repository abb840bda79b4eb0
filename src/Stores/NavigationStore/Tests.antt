-- ===== src/Stores/NavigationStore/Tests.antt =====
-- The hash of the window at some pages.
use etl_nexus.Common.{◌≡◌, refl, codes}
use etl_nexus.Stores.NavigationStore.{
  tables, ai, data_products, parse_hash, initial_navigation, on_hash_change, set_active_tab,
  Navigation,
}
use etl_nexus.Stores.NavigationStore.Sync.{here, then_move, select, go_to, Moves-IsSynced}

parse_nested : parse_hash (codes "#/tables/vault") ≡ tables
unfolding parse_hash
parse_nested = refl

parse_unknown : parse_hash (codes "#pipelines") ≡ data_products
unfolding parse_hash
parse_unknown = refl

abbrev after_ai : Navigation
after_ai = set_active_tab ai (initial_navigation (codes "#tables"))

Moves-IsSynced_example :
    parse_hash (on_hash_change (record after_ai { hash = codes "#x" })).hash
    ≡ (on_hash_change (record after_ai { hash = codes "#x" })).active_tab
Moves-IsSynced_example =
    Moves-IsSynced (codes "#tables")
      (then_move (then_move here (select ai _)) (go_to (codes "#x") after_ai))
