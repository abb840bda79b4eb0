-- ===== src/App/Browsing.antt =====
-- The command palette over a registry that has loaded every page.
use etl_nexus.Common.{
  ℕ, ◌+◌, Bool, true, ◌&&◌, ◌===◌, String, List, [], ◌∷◌, any, some, length, ◌≡◌, ◌≢◌, refl, ◌∙◌,
  arith,
}
use etl_nexus.CommandPalette.{Palette}
use etl_nexus.Paging.{Page, load_all, all_items}
use etl_nexus.Paging.Complete.{Serves, load_all_complete}
use etl_nexus.Registry.{ListItem, is_kept}
use etl_nexus.Registry.Filtering.{filtered_products_exact}
use etl_nexus.Stores.NavigationStore.{Navigation}
use etl_nexus.App.{ListOptions, open_result}
use etl_nexus.App.Opening.{open_result-Lands}

abbrev pub unfiltered : List String → ListOptions
unfiltered favorite_ids = record { teams = []; schedules = []; favorite_ids = favorite_ids }

abbrev pub has_id : String → List ListItem → Bool
has_id id products = any (λ p. p.id === id) products

kept_unfiltered : (p : ListItem) → is_kept [] [] p ≡ true
kept_unfiltered p = ((filtered_products_exact [] [] []).1 p).1 (tt, tt)

any-kept :
    (id : String) (products : List ListItem)
    → any (λ p. is_kept [] [] p && (p.id === id)) products ≡ has_id id products
any-kept id [] = refl
any-kept id (p ∷ ps) = ground (arith, kept_unfiltered p, any-kept id ps)

-- The server answers with the slices of its catalogue, and no filter is set. Once every page is
-- loaded, which one page more than there are products is enough for, each product of the catalogue
-- that has an id can be opened from the palette: it stays selected.
pub open_result-loaded :
    (le : String → String → Bool) (favorite_ids : List String) (catalogue : List ListItem)
    (fetch : ℕ → ℕ → Page ListItem) (id : String) (p : Palette) (nav : Navigation)
    → Serves catalogue fetch
    → id ≢ ""
    → has_id id catalogue ≡ true
    → (pages : List (Page ListItem)) × (load_all fetch (length catalogue + 1) ≡ some pages)
      × ((open_result le (unfiltered favorite_ids) (all_items pages) id p nav).1.1 ≡ some (some id))
open_result-loaded le favorite_ids catalogue fetch id p nav server named known =
    let (pages, loaded, whole) = load_all_complete catalogue fetch server in
    let there : has_id id (all_items pages) ≡ true = rw whole known in
    let (_, (_, selects)) =
      open_result-Lands le (unfiltered favorite_ids) (all_items pages) id p nav named in
    (pages, loaded, selects (any-kept id (all_items pages) ∙ there))
