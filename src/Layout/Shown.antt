-- ===== src/Layout/Shown.antt =====
-- Which tab is marked, and what a click on a tab does.
use etl_nexus.Common.{[], ◌∷◌, map, filter, ◌≡◌, refl}
use etl_nexus.Stores.NavigationStore.{Tab, data_products, tables, ai, Navigation, set_active_tab}
use etl_nexus.Layout.{NavItem, nav_items, click_nav_item}

-- Exactly the tab of the page is marked, and each click on another one leads to it.
nav_items-marked :
    (active_tab : Tab)
    → map (λ item. item.tab) (filter (λ item. item.active) (nav_items active_tab)) ≡ active_tab ∷ []
unfolding nav_items
nav_items-marked data_products = refl
nav_items-marked tables = refl
nav_items-marked ai = refl

click_nav_item-tab :
    (item : NavItem) (nav : Navigation) → (click_nav_item item nav).active_tab ≡ item.tab
unfolding click_nav_item set_active_tab
click_nav_item-tab item nav = refl
