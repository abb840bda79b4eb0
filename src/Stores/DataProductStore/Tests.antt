-- ===== src/Stores/DataProductStore/Tests.antt =====
-- Two filters toggled, one of them twice.
use etl_nexus.Common.{false, String, List, [], ◌∷◌, none, IsSetLike, has, ◌≡◌, refl}
use etl_nexus.Stores.DataProductStore.{Dimension, team, schedule, initial_data_product}
use etl_nexus.Stores.DataProductStore.Filters.{
  Action, toggle_value, search, run, replay, Choice, filters_of, Represents, run-Represents,
}

abbrev actions : List Action
actions =
    toggle_value team "a"
    ∷ toggle_value schedule "daily"
    ∷ search "orders"
    ∷ toggle_value team "b"
    ∷ toggle_value team "a"
    ∷ []

abbrev nothing_chosen : Choice
nothing_chosen = record { selected = none; query = ""; drawer = false; chosen = λ d v. false }

initial-chosen : (d : Dimension) (v : String) → has v (filters_of d initial_data_product) ≡ false
unfolding has
initial-chosen team v = refl
initial-chosen schedule v = refl

initial-sets : (d : Dimension) → IsSetLike (filters_of d initial_data_product)
initial-sets team = tt
initial-sets schedule = tt

initial-Represents : Represents initial_data_product nothing_chosen
initial-Represents = record {
  selected = refl;
  query = refl;
  drawer = refl;
  chosen = initial-chosen;
  sets = initial-sets;
}

one_team_left : (run actions initial_data_product).team_filters ≡ "b" ∷ []
unfolding run
one_team_left = refl

run-Represents_example :
    Represents (run actions initial_data_product) (replay actions nothing_chosen)
run-Represents_example =
    run-Represents actions initial_data_product nothing_chosen initial-Represents
