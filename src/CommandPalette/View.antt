-- ===== src/CommandPalette/View.antt =====
-- frontend/src/components/shared/CommandPalette.tsx: what the palette shows.
use etl_nexus.Common.{
  ℕ, zero, suc, ◌+◌, ◌≤◌, Bool, true, false, not, ◌&&◌, ◌==◌, String, List, [], ◌∷◌, Option, none,
  some, if◌then◌else◌, non_empty, non_empty_list, get_elem?, ◌≡◌, ◌≢◌, refl, arith,
}
use etl_nexus.CommandPalette.{
  SearchResult, Palette, active_result, result_at, press_enter, select_result,
}
use etl_nexus.CommandPalette.Pointing.{PaletteRun, enter_opens}
use etl_nexus.Stores.NavigationStore.{Navigation}

-- a result, and whether it is the highlighted one
abbrev pub Listed : Type 0
Listed = SearchResult × Bool

unfoldable pub listed_from : ℕ → ℕ → List SearchResult → List Listed
listed_from active_next i [] = []
listed_from active_next i (r ∷ results) =
    (r, i + 1 == active_next) ∷ listed_from active_next (i + 1) results

pub record PaletteView : Type 0 where
  pub searching : Bool
  pub no_results : Option String
  pub list : List Listed
  pub hint : Bool

module _ (trim : String → String) where
  unfoldable pub palette_view : Palette → Option PaletteView
  unfolding listed_from
  palette_view p =
      if p.is_open
      then some (record {
        searching = p.loading && non_empty (trim p.query);
        no_results =
            if not p.loading && (non_empty (trim p.query) && not (non_empty_list p.results))
            then some p.query
            else none;
        list = if p.loading then [] else listed_from p.active_next 0 p.results;
        hint = not (non_empty (trim p.query));
      })
      else none

-- the list of the view, nothing if it is closed
abbrev pub list_of : Option PaletteView → List Listed
list_of none = []
list_of (some view) = view.list

-- the results that the list highlights
abbrev pub highlighted : List Listed → List SearchResult
highlighted [] = []
highlighted ((r, mark) ∷ rs) = let rest = highlighted rs in if mark then r ∷ rest else rest

highlighted-passed :
    (next i : ℕ) (results : List SearchResult)
    → next ≤ i
    → highlighted (listed_from next i results) ≡ []
unfolding listed_from
highlighted-passed next i [] h = refl
highlighted-passed next i (r ∷ results) h =
    ground (arith, highlighted-passed next (i + 1) results (omega arith))

highlighted-ahead :
    (k next i : ℕ) (results : List SearchResult) (r : SearchResult)
    → next ≡ i + k + 1
    → get_elem? results k ≡ some r
    → highlighted (listed_from next i results) ≡ r ∷ []
unfolding listed_from
highlighted-ahead k next i [] r h e = absurd (cc)
highlighted-ahead zero next i (q ∷ results) r h e =
    let same : q ≡ r = cc in
    rw same (ground (arith, highlighted-passed next (i + 1) results (omega arith)))
highlighted-ahead (suc k) next i (q ∷ results) r h e =
    ground (arith, highlighted-ahead k next (i + 1) results r (omega arith) e)

highlighted-active :
    (next : ℕ) (results : List SearchResult) (r : SearchResult)
    → result_at next results ≡ some r
    → highlighted (listed_from next 0 results) ≡ r ∷ []
highlighted-active zero results r e = absurd (cc)
highlighted-active (suc k) results r e = highlighted-ahead k (suc k) 0 results r (omega arith) e

-- The palette is open, lists results and waits for no answer, whatever was typed, pressed, pointed
-- at and answered before: the list highlights one result and no other, and Enter opens its product.
pub palette_view-highlights :
    (trim : String → String) {p : Palette} (nav : Navigation) (selected : Option String)
    → PaletteRun trim p
    → p.is_open ≡ true
    → p.loading ≡ false
    → p.results ≢ []
    → (r : SearchResult) × (highlighted (list_of (palette_view trim p)) ≡ r ∷ [])
      × (press_enter p nav selected ≡ select_result r.product_id p nav)
unfolding palette_view active_result
palette_view-highlights trim {p} nav selected run is_open idle listed =
    let (r, active, opens) = (enter_opens trim nav selected run).0 listed in
    (r, rw (is_open, idle) (highlighted-active p.active_next p.results r active), opens)
