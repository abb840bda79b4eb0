-- ===== src/CommandPalette/Searching.antt =====
-- A search from the query to the product that is opened.
use etl_nexus.Common.{
  true, false, String, List, [], ◌∷◌, ◌++◌, Option, some, non_empty, ◌≡◌, refl, ap, ◌∙◌,
}
use etl_nexus.Stores.NavigationStore.{Navigation, set_active_tab, data_products}
use etl_nexus.CommandPalette.{
  SearchResult, Palette, search_effect, type_query, send_search, fire_timer, receive, select_result,
  press_enter, enter_result, close,
}

abbrev typed_query : String → Palette → Palette
typed_query query p = record p { query = query; timer = some query }

type_query_open :
    (trim : String → String) (query : String) (p : Palette)
    → p.is_open ≡ true
    → non_empty (trim query) ≡ true
    → type_query trim query p ≡ typed_query query p
unfolding type_query search_effect
type_query_open trim query p is_open some_text = rw (is_open, some_text) refl

-- the palette after a query was typed and its timer has fired
abbrev pub asked : (String → String) → String → Palette → Palette
asked trim query p = fire_timer (type_query trim query p)

asked_open :
    (trim : String → String) (query : String) (p : Palette)
    → p.is_open ≡ true
    → non_empty (trim query) ≡ true
    → asked trim query p ≡ send_search (some query) (typed_query query p)
unfolding fire_timer
asked_open trim query p is_open some_text =
    ap fire_timer (type_query_open trim query p is_open some_text)

-- One search is sent and waits; its answer is shown, and Enter opens the first product of it.
pub record Opens (trim : String → String) (query : String) (p : Palette) (r : SearchResult)
    (rs : List SearchResult) : Type 0 where
  pub sent : (asked trim query p).in_flight ≡ p.in_flight ++ query ∷ []
  pub waits : (asked trim query p).loading ≡ true
  pub shown : (receive query (some (r ∷ rs)) (asked trim query p)).results ≡ r ∷ rs
  pub settled : (receive query (some (r ∷ rs)) (asked trim query p)).loading ≡ false
  pub opened :
      (nav : Navigation) (selected : Option String)
      → press_enter (receive query (some (r ∷ rs)) (asked trim query p)) nav selected ≡ (
        close (receive query (some (r ∷ rs)) (asked trim query p)),
        (set_active_tab data_products nav, some r.product_id),
      )

module _ (trim : String → String) (query : String) (p : Palette) (is_open : p.is_open ≡ true)
    (some_text : non_empty (trim query) ≡ true) where
  -- In an open palette, a query that is not blank is searched for once its timer fires; if its
  -- answer lists products, they are shown, and Enter then goes to the data products, selects the
  -- first of them and closes the palette.
  pub search-Opens : (r : SearchResult) (rs : List SearchResult) → Opens trim query p r rs
  unfolding receive send_search press_enter enter_result select_result close
  search-Opens r rs = record {
    sent = ap (λ q. q.in_flight) (asked_open trim query p is_open some_text);
    waits = ap (λ q. q.loading) (asked_open trim query p is_open some_text);
    shown = refl;
    settled = refl;
    opened = λ nav selected. refl;
  }

  -- Two queries that are not blank are typed and searched for one after the other, and both searches
  -- are in flight. If the answer to the first one arrives after that to the second, the palette shows
  -- the answer to the first one under the second query.
  pub search_stale :
      (later : String) (answer late : List SearchResult)
      → non_empty (trim later) ≡ true
      → ((asked trim later (asked trim query p)).in_flight
          ≡ (p.in_flight ++ query ∷ []) ++ later ∷ [])
        × (((receive query
                (some late)
                (receive later (some answer) (asked trim later (asked trim query p)))).results
              ≡ late)
            × ((receive query
                  (some late)
                  (receive later (some answer) (asked trim later (asked trim query p)))).query
                ≡ later))
  unfolding receive send_search
  search_stale later answer late more_text =
      let first = asked_open trim query p is_open some_text in
      let open_still : (asked trim query p).is_open ≡ true = ap (λ q. q.is_open) first ∙ is_open in
      let second = asked_open trim later (asked trim query p) open_still more_text in
      (
        ap (λ q. q.in_flight) second ∙ ap (λ (q : Palette). q.in_flight ++ later ∷ []) first,
        (refl, ap (λ q. q.query) second),
      )
