-- ===== src/CommandPalette.antt =====
-- frontend/src/components/shared/CommandPalette.tsx: the keys, the search with its timer and the
-- answers. `trim` stands for the trimming of the query, and `search` of the server for its answer.
mod Pointing
mod View
mod Searching
mod Tests
use etl_nexus.Common.{
  ℕ, zero, suc, ◌+◌, ◌-◌, min, max, Bool, true, false, not, String, List, [], ◌∷◌, ◌++◌, Option,
  none, some, if◌then◌else◌, non_empty, length, ltb, get_elem?, delete,
}
use etl_nexus.Stores.NavigationStore.{Navigation, set_active_tab, data_products}

pub record SearchResult : Type 0 where
  pub id : String
  pub product_id : String
  pub label : String
  pub sublabel : Option String

-- `active_next` is one more than `activeIndex`, which is -1 after the down arrow at no results.
-- `timer` holds the query of the pending timer, `in_flight` the queries that wait for an answer.
pub record Palette : Type 0 where
  pub is_open : Bool
  pub query : String
  pub results : List SearchResult
  pub active_next : ℕ
  pub loading : Bool
  pub timer : Option String
  pub in_flight : List String

abbrev pub initial_palette : Palette
initial_palette = record {
  is_open = false;
  query = "";
  results = [];
  active_next = 1;
  loading = false;
  timer = none;
  in_flight = [];
}

-- the effect of a new query or a new `open`; while the palette is closed it leaves the timer alone
unfoldable pub search_effect : (String → String) → Palette → Palette
search_effect trim p =
    if not p.is_open
    then p
    else if non_empty (trim p.query)
    then record p { timer = some p.query }
    else record p { timer = none; results = [] }

-- the effect of opening
unfoldable pub open_effect : Palette → Palette
open_effect p = if p.is_open then record p { query = ""; results = []; active_next = 1 } else p

-- Cmd+K or Ctrl+K, with the effects of the render that follows
unfoldable pub toggle_open : (String → String) → Palette → Palette
unfolding open_effect search_effect
toggle_open trim p = search_effect trim (open_effect (record p { is_open = not p.is_open }))

-- Escape
unfoldable pub press_escape : Palette → Palette
press_escape p = record p { is_open = false }

unfoldable pub close : Palette → Palette
close p = record p { is_open = false; query = ""; results = [] }

unfoldable pub type_query : (String → String) → String → Palette → Palette
unfolding search_effect
type_query trim query p = search_effect trim (record p { query = query })

-- the query that the timer holds is searched for
unfoldable pub send_search : Option String → Palette → Palette
send_search none p = p
send_search (some query) p = record p {
  timer = none;
  loading = true;
  in_flight = p.in_flight ++ query ∷ [];
}

unfoldable pub fire_timer : Palette → Palette
unfolding send_search
fire_timer p = send_search p.timer p

abbrev found : Option (List SearchResult) → List SearchResult
found none = []
found (some results) = results

-- The answer to a search, or an exception, whichever search it belongs to.
unfoldable pub receive : String → Option (List SearchResult) → Palette → Palette
unfolding delete
receive query answer p = record p {
  results = found answer;
  active_next = 1;
  loading = false;
  in_flight = delete query p.in_flight;
}

-- `Math.min(i + 1, results.length - 1)`
unfoldable pub arrow_down : Palette → Palette
arrow_down p = record p { active_next = min (p.active_next + 1) (length p.results) }

-- `Math.max(i - 1, 0)`
unfoldable pub arrow_up : Palette → Palette
arrow_up p = record p { active_next = max (p.active_next - 1) 1 }

-- the pointer enters a result that is shown
unfoldable pub hover : ℕ → Palette → Palette
hover idx p = if ltb idx (length p.results) then record p { active_next = idx + 1 } else p

-- `results[activeIndex]`
abbrev pub result_at : ℕ → List SearchResult → Option SearchResult
result_at zero results = none
result_at (suc i) results = get_elem? results i

unfoldable pub active_result : Palette → Option SearchResult
active_result p = result_at p.active_next p.results

-- the palette, the navigation and the product that is selected
unfoldable pub select_result :
    String → Palette → Navigation → Palette × (Navigation × Option String)
unfolding close set_active_tab
select_result product_id p nav = (close p, (set_active_tab data_products nav, some product_id))

unfoldable pub enter_result :
    Option SearchResult
    → Palette
    → Navigation
    → Option String
    → Palette × (Navigation × Option String)
unfolding select_result
enter_result none p nav selected = (p, (nav, selected))
enter_result (some result) p nav selected = select_result result.product_id p nav

-- Enter
unfoldable pub press_enter :
    Palette → Navigation → Option String → Palette × (Navigation × Option String)
unfolding active_result enter_result
press_enter p nav selected = enter_result (active_result p) p nav selected
