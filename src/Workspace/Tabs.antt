-- ===== src/Workspace/Tabs.antt =====
-- Which table the page of a product shows.
use etl_nexus.Common.{
  true, String, List, [], ◌∷◌, Option, some, any, ◌≡◌, ◌≢◌, refl, ap, arith, Bool-cases, inl, inr,
  false≢true,
}
use etl_nexus.Catalog.{TableListItem, is_key_of, keep_selection, find_selected}
use etl_nexus.Catalog.Selecting.{keep_selection-IsSettled}
use etl_nexus.Workspace.{ProductDetail, fetched, WorkspaceState, tables_effect}

-- The table under the tabs is one of the product's, and its tab is marked.
pub record IsShowing (product : ProductDetail) (active_key : Option String) : Type 0 where
  pub table : TableListItem
  pub shown : find_selected active_key product.tables ≡ some table
  pub marked : is_key_of active_key table ≡ true

pub find_selected-found :
    (key : Option String) (ts : List TableListItem)
    → any (is_key_of key) ts ≡ true
    → (t : TableListItem) × (find_selected key ts ≡ some t) × (is_key_of key t ≡ true)
unfolding find_selected
find_selected-found key [] h = absurd (false≢true h)
find_selected-found key (t ∷ ts) h = elim (Bool-cases (is_key_of key t)) [
  | inl found ↦ (t, rw found refl, found)
  | inr other ↦
      let (found, e, k) = find_selected-found key ts (ground arith) in (found, rw other e, k)
]

-- Once the page has settled, a product that has tables shows one of them, whichever table was shown
-- before: its tab is marked, the part under the tabs is that table, and the next run of the effect
-- changes nothing.
pub tables_effect-IsShowing :
    (product : ProductDetail) (w : WorkspaceState)
    → product.tables ≢ []
    → IsShowing product (tables_effect (fetched product) w).active_key
      × (tables_effect (fetched product) (tables_effect (fetched product) w)
          ≡ tables_effect (fetched product) w)
unfolding tables_effect
tables_effect-IsShowing product w h =
    let (kept, settled) = keep_selection-IsSettled product.tables w.active_key in
    let (table, shown, marked) =
      find_selected-found (keep_selection product.tables w.active_key) product.tables (kept h) in
    (
      record { table = table; shown = shown; marked = marked },
      ap (λ key. record w { active_key = key }) settled,
    )
