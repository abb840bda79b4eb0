-- ===== src/Registry/Tests.antt =====
-- The registry at a small catalogue. The order of names is by their length.
use etl_nexus.Common.{
  Bool, true, false, String, List, [], ◌∷◌, Option, none, some, arith, ◌≡◌, ◌≢◌, refl, leb, map,
  All, Group, has, sort, group_by, eq_iff, false≢true,
}
use Prim.Native.String.{len}
use etl_nexus.Registry.{ListItem, filtered_products, grouped_products}
use etl_nexus.Registry.Grouped.{IsGrouping, grouped_products-IsGrouping}
use etl_nexus.Registry.Selection.{IsSettled, selection_effects-IsSettled}

abbrev by_length : String → String → Bool
by_length s t = leb (len s) (len t)

by_length_total : (s t : String) → by_length s t ≡ false → by_length t s ≡ true
by_length_total s t h = ground arith

by_length_transitive :
    (s t u : String) → by_length s t ≡ true → by_length t u ≡ true → by_length s u ≡ true
by_length_transitive s t u h k = ground arith

abbrev product : String → String → Option String → ListItem
product id name team = record {
  id = id;
  name = name;
  description = none;
  schedule_type = some "daily";
  team = team;
}

abbrev catalogue : List ListItem
catalogue =
    product "1" "RouteSync" (some "Dagger")
    ∷ product "2" "Leases" none
    ∷ product "3" "Flow" (some "Dagger")
    ∷ []

abbrev ids_by_group : List (Group ListItem) → List (String × List String)
ids_by_group = map (λ g. (g.category, map (λ p. p.id) g.members))

grouped_ids :
    ids_by_group (grouped_products by_length ("3" ∷ []) catalogue)
    ≡ ("★ Favorites", "3" ∷ []) ∷ ("Dagger", "3" ∷ "1" ∷ []) ∷ ("Unassigned", "2" ∷ []) ∷ []
unfolding grouped_products has sort group_by
grouped_ids = refl

filtered_ids : map (λ p. p.id) (filtered_products ("Dagger" ∷ []) [] catalogue) ≡ "1" ∷ "3" ∷ []
unfolding filtered_products has
filtered_ids = refl

catalogue_ids : All (λ p. p.id ≢ "") catalogue
catalogue_ids = (
  λ e. false≢true ((eq_iff "1" "").1 e),
  (λ e. false≢true ((eq_iff "2" "").1 e), (λ e. false≢true ((eq_iff "3" "").1 e), tt)),
)

grouped_products-IsGrouping_example :
    IsGrouping by_length ("3" ∷ []) catalogue (grouped_products by_length ("3" ∷ []) catalogue)
grouped_products-IsGrouping_example =
    grouped_products-IsGrouping by_length by_length_total by_length_transitive ("3" ∷ []) catalogue

selection_effects-IsSettled_example :
    (settled : Option String) × IsSettled
      (grouped_products by_length [] catalogue)
      catalogue
      none
      settled
selection_effects-IsSettled_example =
    selection_effects-IsSettled by_length [] catalogue none (λ e. cc) catalogue_ids
