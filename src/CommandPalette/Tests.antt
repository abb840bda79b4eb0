-- ===== src/CommandPalette/Tests.antt =====
-- One product is searched for and opened.
use etl_nexus.Common.{String, [], ◌∷◌, none, some, true, false, has, ◌≡◌, ◌≢◌, refl}
use etl_nexus.Stores.NavigationStore.{initial_navigation}
use etl_nexus.CommandPalette.{
  SearchResult, Palette, initial_palette, toggle_open, type_query, fire_timer, receive, press_enter,
  select_result,
}
use etl_nexus.CommandPalette.Pointing.{
  PaletteRun, mounted, and_then, toggled, typed, fired, answered,
}
use etl_nexus.CommandPalette.View.{palette_view, list_of, highlighted, palette_view-highlights}
use etl_nexus.CommandPalette.Searching.{asked, Opens, search-Opens, search_stale}

abbrev same : String → String
same text = text

abbrev logins : SearchResult
logins = record { id = "product-1"; product_id = "1"; label = "Logins"; sublabel = none }

abbrev opened : Palette
opened = toggle_open same initial_palette

abbrev found : Palette
found = receive "log" (some (logins ∷ [])) (asked same "log" opened)

found-PaletteRun : PaletteRun same found
unfolding toggle_open type_query fire_timer has
found-PaletteRun =
    and_then
      (and_then (and_then (and_then mounted (toggled initial_palette)) (typed "log" opened))
        (fired (type_query same "log" opened)))
      (answered "log" (some (logins ∷ [])) (asked same "log" opened) refl)

found_results : found.results ≢ []
unfolding receive
found_results e = cc

found_shown : (found.is_open ≡ true) × (found.loading ≡ false)
unfolding receive toggle_open type_query fire_timer
found_shown = (refl, refl)

palette_view-highlights_example :
    (r : SearchResult) × (highlighted (list_of (palette_view same found)) ≡ r ∷ [])
    × (press_enter found (initial_navigation []) none
        ≡ select_result r.product_id found (initial_navigation []))
palette_view-highlights_example =
    palette_view-highlights same (initial_navigation []) none found-PaletteRun found_shown.0
      found_shown.1 found_results

search-Opens_example : Opens same "log" opened logins []
unfolding toggle_open
search-Opens_example = search-Opens same "log" opened refl refl logins []

search_stale_example :
    ((asked same "cart" (asked same "log" opened)).in_flight ≡ "log" ∷ "cart" ∷ [])
    × (((receive "log"
            (some (logins ∷ []))
            (receive "cart" (some []) (asked same "cart" (asked same "log" opened)))).results
          ≡ logins ∷ [])
        × ((receive "log"
              (some (logins ∷ []))
              (receive "cart" (some []) (asked same "cart" (asked same "log" opened)))).query
            ≡ "cart"))
unfolding toggle_open
search_stale_example = search_stale same "log" opened refl refl "cart" [] (logins ∷ []) refl
