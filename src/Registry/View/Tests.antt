-- ===== src/Registry/View/Tests.antt =====
-- What the list of products says of its filters.
use etl_nexus.Common.{false, [], ◌∷◌, none, some, ◌≡◌, refl}
use etl_nexus.Stores.DataProductStore.{initial_data_product}
use etl_nexus.Registry.{ListItem}
use etl_nexus.Registry.View.{filter_summary, is_filtered}

abbrev leases : ListItem
leases = record { id = "2"; name = "Leases"; description = none; schedule_type = none; team = none }

two_teams : filter_summary ("a" ∷ "b" ∷ []) ("daily" ∷ []) ≡ some "a, b · daily"
unfolding filter_summary
two_teams = refl

no_filter : filter_summary [] [] ≡ none
unfolding filter_summary
no_filter = refl

all_shown : is_filtered initial_data_product (leases ∷ []) [] ≡ false
unfolding is_filtered
all_shown = refl
