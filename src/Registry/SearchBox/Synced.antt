-- ===== src/Registry/SearchBox/Synced.antt =====
-- When the store has the query that the field shows.
use etl_nexus.Common.{String, Option, none, some, ◌===◌, if-holds, ◌≡◌, refl, ◌∙◌}
use etl_nexus.Stores.DataProductStore.{DataProductState, set_search_query, set_filters_open}
use etl_nexus.Registry.SearchBox.{
  SearchBox, mounted_box, type_search, hand_over, fire_search, click_filters,
}

-- What happens to the field and the store. All other components leave the query of the store.
abbrev KeepsQuery : DataProductState → DataProductState → Type 0
KeepsQuery s t = t.search_query ≡ s.search_query

pub data SearchRun : SearchBox → DataProductState → Type 0 where
  mounted : (store : DataProductState) → SearchRun mounted_box store
  remounted :
      {box : SearchBox} {store : DataProductState}
      → SearchRun box store
      → SearchRun mounted_box store
  typed :
      {box : SearchBox} {store : DataProductState} (query : String)
      → SearchRun box store
      → SearchRun (type_search query box) store
  fired :
      {box : SearchBox} {store : DataProductState}
      → SearchRun box store
      → SearchRun (fire_search box store).0 (fire_search box store).1
  filters_clicked :
      {box : SearchBox} {store : DataProductState}
      → SearchRun box store
      → SearchRun box (click_filters store)
  changed :
      {box : SearchBox} {store next : DataProductState}
      → KeepsQuery store next
      → SearchRun box store
      → SearchRun box next

-- A timer that runs has the text of the field; where none runs the store has it.
abbrev pub Waits : Option String → String → String → Type 0
Waits none local_query search_query = search_query ≡ local_query
Waits (some query) local_query search_query = query ≡ local_query

hand_over-query :
    (timer : Option String) (box : SearchBox) (store : DataProductState)
    → Waits timer box.local_query store.search_query
    → (hand_over timer box store).1.search_query ≡ box.local_query
unfolding set_search_query
hand_over-query none box store h = h
hand_over-query (some query) box store h = h

hand_over-Waits :
    (timer : Option String) (box : SearchBox) (store : DataProductState)
    → timer ≡ box.timer
    → Waits timer box.local_query store.search_query
    → Waits
        (hand_over timer box store).0.timer
        (hand_over timer box store).0.local_query
        (hand_over timer box store).1.search_query
unfolding set_search_query
hand_over-Waits none box store e h = rw⁻¹ e h
hand_over-Waits (some query) box store e h = h

type_search-Waits :
    (query : String) (box : SearchBox) (store : DataProductState)
    → Waits box.timer box.local_query store.search_query
    → Waits (type_search query box).timer (type_search query box).local_query store.search_query
unfolding type_search
type_search-Waits query box store h =
    if-holds (λ (next : SearchBox). Waits next.timer next.local_query store.search_query)
      (query === box.local_query) (λ _. h) (λ _. refl)

Waits-kept :
    (timer : Option String) (local_query : String) (s t : DataProductState)
    → KeepsQuery s t
    → Waits timer local_query s.search_query
    → Waits timer local_query t.search_query
Waits-kept none local_query s t e h = e ∙ h
Waits-kept (some query) local_query s t e h = h

run-Waits :
    {box : SearchBox} {store : DataProductState}
    → SearchRun box store
    → Waits box.timer box.local_query store.search_query
unfolding click_filters set_filters_open fire_search
run-Waits (mounted store) = refl
run-Waits (remounted run) = refl
run-Waits (typed {box = box} {store = store} query run) =
    type_search-Waits query box store (run-Waits run)
run-Waits (fired {box = box} {store = store} run) =
    hand_over-Waits box.timer box store refl (run-Waits run)
run-Waits (filters_clicked {box = box} {store = store} run) =
    Waits-kept box.timer box.local_query store (click_filters store) refl (run-Waits run)
run-Waits (changed {box = box} {store = store} {next = next} keeps run) =
    Waits-kept box.timer box.local_query store next keeps (run-Waits run)

-- In every run of the search field, from its first render on and whatever else changes in the
-- store: where no timer runs, the store has the query of the field; where one runs, it will hand
-- over the query of the field, so that the store has it once the timer has fired.
pub SearchRun-Waits :
    {box : SearchBox} {store : DataProductState}
    → SearchRun box store
    → Waits box.timer box.local_query store.search_query
      × ((fire_search box store).1.search_query ≡ box.local_query)
unfolding fire_search
SearchRun-Waits {box = box} {store = store} run =
    (run-Waits run, hand_over-query box.timer box store (run-Waits run))
