-- ===== src/Stores/DataProductStore/Filters.antt =====
-- The store of data products as its users see it: two sets, each a predicate, and three fields.
use etl_nexus.Common.{
  Bool, true, false, not, ◌&&◌, String, List, [], ◌∷◌, Option, if◌then◌else◌, ◌===◌, eq_iff, has,
  IsSetLike, has-add, has-delete, add-IsSetLike, delete-IsSetLike, ◌≡◌, refl, sym, ◌∙◌, ap, subst,
  arith, if-holds, Bool-cases, inl, inr,
}
use etl_nexus.Stores.DataProductStore.{
  DataProductState, Dimension, team, schedule, set_selected_product_id, set_search_query,
  set_filters_open, toggle, toggle_filter, clear_all_filters,
}

-- a call of the store
pub data Action : Type 0 where
  select : Option String → Action
  search : String → Action
  open_filters : Bool → Action
  toggle_value : Dimension → String → Action
  clear : Action

-- A call, and a run of calls.
unfoldable pub act : Action → DataProductState → DataProductState
unfolding set_selected_product_id set_search_query set_filters_open toggle_filter clear_all_filters
act (select id) s = (set_selected_product_id id s).0
act (search query) s = set_search_query query s
act (open_filters is_open) s = set_filters_open is_open s
act (toggle_value dimension value) s = toggle_filter dimension value s
act clear s = clear_all_filters s

unfoldable pub run : List Action → DataProductState → DataProductState
unfolding act
run [] s = s
run (action ∷ actions) s = run actions (act action s)

-- What the calls mean: a selected product, a query, an open drawer, and which values are chosen.
pub record Choice : Type 0 where
  pub selected : Option String
  pub query : String
  pub drawer : Bool
  pub chosen : Dimension → String → Bool

abbrev same_dimension : Dimension → Dimension → Bool
same_dimension team team = true
same_dimension team schedule = false
same_dimension schedule team = false
same_dimension schedule schedule = true

-- the one value of the one dimension is chosen if it was not, and all others are left
abbrev pub flip : Dimension → String → (Dimension → String → Bool) → Dimension → String → Bool
flip dimension value chosen d v =
    if same_dimension dimension d && value === v then not (chosen d v) else chosen d v

abbrev pub mean : Action → Choice → Choice
mean (select id) c = record c { selected = id }
mean (search query) c = record c { query = query }
mean (open_filters is_open) c = record c { drawer = is_open }
mean (toggle_value dimension value) c = record c { chosen = flip dimension value c.chosen }
mean clear c = record c { chosen = λ d v. false }

abbrev pub replay : List Action → Choice → Choice
replay [] c = c
replay (action ∷ actions) c = replay actions (mean action c)

abbrev pub filters_of : Dimension → DataProductState → List String
filters_of team s = s.team_filters
filters_of schedule s = s.schedule_filters

-- The state represents the choice, by lists without repetitions.
pub record Represents (s : DataProductState) (c : Choice) : Type 0 where
  pub selected : s.selected_product_id ≡ c.selected
  pub query : s.search_query ≡ c.query
  pub drawer : s.filters_open ≡ c.drawer
  pub chosen : (d : Dimension) (v : String) → has v (filters_of d s) ≡ c.chosen d v
  pub sets : (d : Dimension) → IsSetLike (filters_of d s)

has-toggle :
    (v value : String) (set : List String)
    → has v (toggle value set) ≡ (if value === v then not (has v set) else has v set)
unfolding toggle
has-toggle v value set = elim (Bool-cases (has value set)) [
  | inl member ↦ ground (arith, has-delete v value set, eq_iff value v)
  | inr other ↦ ground (arith, has-add v value set, eq_iff value v)
]

toggle-IsSetLike :
    (value : String) (set : List String) → IsSetLike set → IsSetLike (toggle value set)
unfolding toggle
toggle-IsSetLike value set h =
    if-holds IsSetLike (has value set) (λ _. delete-IsSetLike value set h)
      (λ _. add-IsSetLike value set h)

toggle_filter-chosen :
    (dimension : Dimension) (value : String) (s : DataProductState) (d : Dimension) (v : String)
    → has v (filters_of d (toggle_filter dimension value s))
      ≡ flip dimension value (λ d v. has v (filters_of d s)) d v
unfolding toggle_filter
toggle_filter-chosen team value s team v = has-toggle v value s.team_filters
toggle_filter-chosen team value s schedule v = refl
toggle_filter-chosen schedule value s team v = refl
toggle_filter-chosen schedule value s schedule v = has-toggle v value s.schedule_filters

toggle_filter-sets :
    (dimension : Dimension) (value : String) (s : DataProductState)
    → ((d : Dimension) → IsSetLike (filters_of d s))
    → (d : Dimension) → IsSetLike (filters_of d (toggle_filter dimension value s))
unfolding toggle_filter
toggle_filter-sets team value s h team = toggle-IsSetLike value s.team_filters (h team)
toggle_filter-sets team value s h schedule = h schedule
toggle_filter-sets schedule value s h team = h team
toggle_filter-sets schedule value s h schedule =
    toggle-IsSetLike value s.schedule_filters (h schedule)

toggle_filter-others :
    (dimension : Dimension) (value : String) (s : DataProductState)
    → ((toggle_filter dimension value s).selected_product_id ≡ s.selected_product_id)
      × (((toggle_filter dimension value s).search_query ≡ s.search_query)
          × ((toggle_filter dimension value s).filters_open ≡ s.filters_open))
unfolding toggle_filter
toggle_filter-others team value s = (refl, (refl, refl))
toggle_filter-others schedule value s = (refl, (refl, refl))

-- `flip` looks at what is chosen only at the one place
flip-same :
    (dimension : Dimension) (value : String) (f g : Dimension → String → Bool) (d : Dimension)
    (v : String)
    → f d v ≡ g d v
    → flip dimension value f d v ≡ flip dimension value g d v
flip-same dimension value f g d v e =
    ap (λ b. if same_dimension dimension d && value === v then not b else b) e

toggle_filter-Represents :
    (dimension : Dimension) (value : String) (s : DataProductState) (c : Choice)
    → Represents s c
    → Represents (toggle_filter dimension value s) (mean (toggle_value dimension value) c)
toggle_filter-Represents dimension value s c h =
    let (selected, (query, drawer)) = toggle_filter-others dimension value s in
    record {
      selected = selected ∙ h.selected;
      query = query ∙ h.query;
      drawer = drawer ∙ h.drawer;
      chosen = λ d v.
          toggle_filter-chosen dimension value s d v
          ∙ flip-same dimension value (λ d v. has v (filters_of d s)) c.chosen d v (h.chosen d v);
      sets = toggle_filter-sets dimension value s h.sets;
    }

-- a state with the same sets
kept :
    (s t : DataProductState)
    → t.team_filters ≡ s.team_filters
    → t.schedule_filters ≡ s.schedule_filters
    → (d : Dimension) → filters_of d t ≡ filters_of d s
kept s t e f team = e
kept s t e f schedule = f

kept-chosen :
    (s t : DataProductState) (c : Choice)
    → Represents s c
    → ((d : Dimension) → filters_of d t ≡ filters_of d s)
    → ((d : Dimension) (v : String) → has v (filters_of d t) ≡ c.chosen d v)
      × ((d : Dimension) → IsSetLike (filters_of d t))
kept-chosen s t c h same =
    (λ d v. ap (has v) (same d) ∙ h.chosen d v, λ d. subst IsSetLike (sym (same d)) (h.sets d))

cleared_empty : (s : DataProductState) (d : Dimension) → filters_of d (clear_all_filters s) ≡ []
unfolding clear_all_filters
cleared_empty s team = refl
cleared_empty s schedule = refl

clear_all_filters-Represents :
    (s : DataProductState) (c : Choice)
    → Represents s c
    → Represents (clear_all_filters s) (mean clear c)
unfolding clear_all_filters has
clear_all_filters-Represents s c h = record {
  selected = h.selected;
  query = h.query;
  drawer = h.drawer;
  chosen = λ d v. ap (has v) (cleared_empty s d);
  sets = λ d. subst IsSetLike (sym (cleared_empty s d)) tt;
}

act-Represents :
    (action : Action) (s : DataProductState) (c : Choice)
    → Represents s c
    → Represents (act action s) (mean action c)
unfolding act set_selected_product_id set_search_query set_filters_open
act-Represents (select id) s c h =
    let (chosen, sets) = kept-chosen s (act (select id) s) c h (kept s _ refl refl) in
    record { selected = refl; query = h.query; drawer = h.drawer; chosen = chosen; sets = sets }
act-Represents (search query) s c h =
    let (chosen, sets) = kept-chosen s (act (search query) s) c h (kept s _ refl refl) in
    record { selected = h.selected; query = refl; drawer = h.drawer; chosen = chosen; sets = sets }
act-Represents (open_filters is_open) s c h =
    let (chosen, sets) = kept-chosen s (act (open_filters is_open) s) c h (kept s _ refl refl) in
    record { selected = h.selected; query = h.query; drawer = refl; chosen = chosen; sets = sets }
act-Represents (toggle_value dimension value) s c h = toggle_filter-Represents dimension value s c h
act-Represents clear s c h = clear_all_filters-Represents s c h

-- Every run of calls refines its meaning: from a state that represents a choice, by lists without
-- repetitions, the calls lead to a state that represents what they make of the choice.
pub run-Represents :
    (actions : List Action) (s : DataProductState) (c : Choice)
    → Represents s c
    → Represents (run actions s) (replay actions c)
unfolding run
run-Represents [] s c h = h
run-Represents (action ∷ actions) s c h =
    run-Represents actions (act action s) (mean action c) (act-Represents action s c h)
