-- ===== src/Stores/NavigationStore.antt =====
-- frontend/src/stores/navigation-store.ts and frontend/src/lib/constants.ts, with the listener of
-- frontend/src/App.tsx. Setting `window.location.hash` puts a "#" in front, and a later read shows it.
pub mod Sync
mod Tests
use etl_nexus.Common.{
  ℕ, zero, suc, ◌-◌, Bool, true, false, String, List, [], ◌∷◌, ◌++◌, Option, none, some,
  if◌then◌else◌, Text, codes, same_text, split_on, drop, take, length, get_elem?,
}

-- `TabType`
pub data Tab : Type 0 where
  data_products tables ai : Tab

-- the text of a tab, and `buildHash`
unfoldable pub build_hash : Tab → Text
build_hash data_products = codes "data-products"
build_hash tables = codes "tables"
build_hash ai = codes "ai"

abbrev pub default_tab : Tab
default_tab = data_products

-- `segments[0]` after `filter(Boolean)`
unfoldable pub first_non_empty : List Text → Option Text
first_non_empty [] = none
first_non_empty ([] ∷ words) = first_non_empty words
first_non_empty ((c ∷ s) ∷ words) = some (c ∷ s)

-- `VALID_TABS.includes(segment) ? segment : DEFAULT_TAB`
unfoldable pub tab_of : Option Text → Tab
unfolding build_hash same_text
tab_of none = default_tab
tab_of (some segment) =
    if same_text segment (build_hash data_products)
    then data_products
    else if same_text segment (build_hash tables)
    then tables
    else if same_text segment (build_hash ai)
    then ai
    else default_tab

unfoldable pub parse_hash : Text → Tab
unfolding tab_of first_non_empty split_on
parse_hash hash = tab_of (first_non_empty (split_on b'/' (drop 1 hash)))

-- what `window.location.hash` shows after it was set to a text
abbrev pub location_hash : Text → Text
location_hash text = b'#' ∷ text

pub record Breadcrumb : Type 0 where
  pub tab : Tab
  pub label : String

-- The store and the hash of the window.
pub record Navigation : Type 0 where
  pub active_tab : Tab
  pub breadcrumbs : List Breadcrumb
  pub hash : Text

-- the store as it is created at a page with this hash
unfoldable pub initial_navigation : Text → Navigation
initial_navigation hash = record { active_tab = parse_hash hash; breadcrumbs = []; hash = hash }

unfoldable pub set_active_tab : Tab → Navigation → Navigation
set_active_tab tab s = record s {
  active_tab = tab;
  breadcrumbs = [];
  hash = location_hash (build_hash tab);
}

unfoldable pub push_breadcrumb : Breadcrumb → Navigation → Navigation
push_breadcrumb crumb s = record s { breadcrumbs = s.breadcrumbs ++ crumb ∷ [] }

-- `breadcrumbs.slice(0, -1)`
abbrev pub without_last {ℓ} : {A : Type ℓ} → List A → List A
without_last xs = take (length xs - 1) xs

-- `xs[xs.length - 1]`
unfoldable pub last? {ℓ} : {A : Type ℓ} → List A → Option A
last? [] = none
last? (x ∷ []) = some x
last? (x ∷ y ∷ xs) = last? (y ∷ xs)

-- the store with the remaining breadcrumbs, at the tab of the last of them
unfoldable pub go_back : Option Breadcrumb → List Breadcrumb → Navigation → Navigation
go_back none remaining s = record s { breadcrumbs = remaining }
go_back (some target) remaining s = record s {
  active_tab = target.tab;
  breadcrumbs = remaining;
  hash = location_hash (build_hash target.tab);
}

abbrev pub pop_from : List Breadcrumb → Navigation → Navigation
pop_from [] s = s
pop_from (crumb ∷ crumbs) s =
    let remaining = without_last (crumb ∷ crumbs) in go_back (last? remaining) remaining s

unfoldable pub pop_breadcrumb : Navigation → Navigation
unfolding last? go_back
pop_breadcrumb s = pop_from s.breadcrumbs s

unfoldable pub clear_breadcrumbs : Navigation → Navigation
clear_breadcrumbs s = record s { breadcrumbs = [] }

abbrev pub same_tab : Tab → Tab → Bool
same_tab data_products data_products = true
same_tab tables tables = true
same_tab ai ai = true
same_tab _ _ = false

-- App.tsx: the listener of "hashchange"
unfoldable pub on_hash_change : Navigation → Navigation
unfolding set_active_tab
on_hash_change s =
    let tab = parse_hash s.hash in if same_tab tab s.active_tab then s else set_active_tab tab s
