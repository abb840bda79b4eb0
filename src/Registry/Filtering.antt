-- ===== src/Registry/Filtering.antt =====
-- Which products pass the filters of the registry.
use etl_nexus.Common.{
  true, false, String, List, [], ◌∷◌, Option, none, some, arith, ◌≡◌, ◌≢◌, refl, filter, has,
  eq_iff, ◌↔◌,
}
use etl_nexus.Registry.{ListItem, is_kept, is_filtered_out, filtered_products}

-- The field has a value in the set; an empty set asks for nothing.
abbrev pub Passes : List String → Option String → Type 0
Passes [] value = Unit
Passes (x ∷ set) value = (v : String) × (value ≡ some v) × (v ≢ "") × (has v (x ∷ set) ≡ true)

is_filtered_out_iff :
    (set : List String) (value : Option String)
    → (is_filtered_out set value ≡ false) ↔ Passes set value
unfolding is_filtered_out
is_filtered_out_iff [] none = (λ _. tt, λ _. refl)
is_filtered_out_iff [] (some v) = (λ _. tt, λ _. refl)
is_filtered_out_iff (x ∷ set) none = (λ e. cc, λ p. cc (p.1))
is_filtered_out_iff (x ∷ set) (some v) = (
  λ e. (v, refl, ground (arith, eq_iff v ""), ground arith),
  λ p. ground (arith, eq_iff v "", eq_iff p.0 ""),
)

-- A product is kept exactly if it passes both filters.
is_kept_iff :
    (teams schedules : List String) (p : ListItem)
    → (is_kept teams schedules p ≡ true) ↔ (Passes teams p.team × Passes schedules p.schedule_type)
unfolding is_kept
is_kept_iff teams schedules p =
    let (team_to, team_from) = is_filtered_out_iff teams p.team in
    let (schedule_to, schedule_from) = is_filtered_out_iff schedules p.schedule_type in
    (
      λ kept. (team_to (ground arith), schedule_to (ground arith)),
      λ passes. ground (arith, team_from passes.0, schedule_from passes.1),
    )

all_kept : (products : List ListItem) → filter (is_kept [] []) products ≡ products
unfolding is_kept
all_kept [] = refl
all_kept (p ∷ ps) = ground (arith, all_kept ps)

filter-is_kept :
    (teams schedules : List String) (products : List ListItem)
    → filtered_products teams schedules products ≡ filter (is_kept teams schedules) products
unfolding filtered_products
filter-is_kept teams schedules [] = refl
filter-is_kept [] [] (p ∷ ps) = ground (arith, all_kept (p ∷ ps))
filter-is_kept [] (x ∷ schedules) (p ∷ ps) = refl
filter-is_kept (x ∷ teams) schedules (p ∷ ps) = refl

-- The list shows, in the order of the server, exactly the products that pass: whose team is in the
-- set of teams unless that set is empty, and whose schedule is in the set of schedules unless that
-- set is empty. A product with no team or no schedule fails a filter that is set.
pub filtered_products_exact :
    (teams schedules : List String) (products : List ListItem)
    → (filtered_products teams schedules products ≡ filter (is_kept teams schedules) products)
      × ((p : ListItem)
          → (is_kept teams schedules p ≡ true)
            ↔ (Passes teams p.team × Passes schedules p.schedule_type))
filtered_products_exact teams schedules products =
    (filter-is_kept teams schedules products, is_kept_iff teams schedules)
