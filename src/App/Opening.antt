-- ===== src/App/Opening.antt =====
-- What becomes of a product that is chosen in the command palette.
use etl_nexus.Common.{
  ◌&&◌, ◌===◌, any, filter, ◌∙◌, Bool, true, false, String, List, [], ◌∷◌, Option, some, ◌≡◌, ◌≢◌,
  ◌⊎◌, inl, inr, refl, arith, truthy, Bool-cases, eq_iff,
}
use etl_nexus.CommandPalette.{Palette, select_result}
use etl_nexus.Registry.{ListItem, shows, is_kept}
use etl_nexus.Registry.Filtering.{filtered_products_exact}
use etl_nexus.Registry.Selection.{selection_effects-shown, selection_effects-replaced}
use etl_nexus.Stores.NavigationStore.{Navigation, data_products}
use etl_nexus.App.{ListOptions, list_shown, render_registry, open_result}

-- What the registry leaves selected where `id` was chosen and the list shows these products.
abbrev pub Lands : String → List ListItem → Option (Option String) → Type 0
Lands id [] left = left ≡ some (some id)
Lands id (first ∷ rest) left =
    ((shows (first ∷ rest) (some id) ≡ true) × (left ≡ some (some id)))
    ⊎ ((shows (first ∷ rest) (some id) ≡ false) × ((left ≡ some (some first.id)) × (first.id ≢ id)))

truthy_of_ne : (id : String) → id ≢ "" → truthy (some id) ≡ true
truthy_of_ne id h = ground (arith, eq_iff id "")

hidden_ne :
    (id : String) (first : ListItem) (rest : List ListItem)
    → shows (first ∷ rest) (some id) ≡ false
    → first.id ≢ id
hidden_ne id first rest hidden e = ground (arith, eq_iff first.id id)

render_registry-Lands :
    (le : String → String → Bool) (options : ListOptions) (products shown : List ListItem)
    (id : String)
    → id ≢ ""
    → list_shown le options products ≡ shown
    → Lands id shown (render_registry le options products (some id))
unfolding render_registry
render_registry-Lands le options products [] id h e = rw e (ground arith)
render_registry-Lands le options products (first ∷ rest) id h e =
    rw e (elim (Bool-cases (shows (first ∷ rest) (some id))) [
      | inl there ↦
          inl (there, selection_effects-shown _ (first ∷ rest) (some id) there (truthy_of_ne id h))
      | inr hidden ↦ inr (
        hidden,
        (
          selection_effects-replaced _ first rest (some id) (truthy_of_ne id h) hidden,
          hidden_ne id first rest hidden,
        ),
      )
    ])

any-filter :
    (test keep : ListItem → Bool) (products : List ListItem)
    → any test (filter keep products) ≡ any (λ p. keep p && test p) products
any-filter test keep [] = refl
any-filter test keep (p ∷ ps) = ground (arith, any-filter test keep ps)

-- the list shows a product with this id: some product is loaded that has it and passes the filters
abbrev pub IsListed : ListOptions → List ListItem → String → Type 0
IsListed options products id =
    any (λ p. is_kept options.teams options.schedules p && (p.id === id)) products ≡ true

shows-list_shown :
    (le : String → String → Bool) (options : ListOptions) (products : List ListItem) (id : String)
    → shows (list_shown le options products) (some id)
      ≡ any (λ p. is_kept options.teams options.schedules p && (p.id === id)) products
unfolding list_shown
shows-list_shown le options products id =
    let (kept, _) = filtered_products_exact options.teams options.schedules products in
    rw kept (any-filter (λ p. p.id === id) (is_kept options.teams options.schedules) products)

Lands-shown :
    (id : String) (shown : List ListItem) (left : Option (Option String))
    → Lands id shown left
    → shows shown (some id) ≡ true
    → left ≡ some (some id)
Lands-shown id [] left h e = h
Lands-shown id (first ∷ rest) left (inl (there, kept)) e = kept
Lands-shown id (first ∷ rest) left (inr (hidden, replaced)) e = cc

-- A result of the palette is chosen at any tab: the palette closes and the tab of the products
-- opens. If the list has nothing to show, or shows the product, the product is selected; it shows it
-- if some loaded product has its id and passes the filters. If the list shows other products only
-- (it is filtered, or has not loaded the page of the product, which the palette searches for on the
-- server), the first of them is selected and not the one chosen.
pub open_result-Lands :
    (le : String → String → Bool) (options : ListOptions) (products : List ListItem) (id : String)
    (p : Palette) (nav : Navigation)
    → id ≢ ""
    → let (closed, (there, left)) = open_result le options products id p nav in
      ((closed.is_open ≡ false) × (there.active_tab ≡ data_products))
      × (Lands id (list_shown le options products) left
          × (IsListed options products id → left ≡ some (some id)))
unfolding open_result select_result
open_result-Lands le options products id p nav h =
    let lands = render_registry-Lands le options products _ id h refl in
    (
      (refl, refl),
      (
        lands,
        λ listed. Lands-shown id _ _ lands (shows-list_shown le options products id ∙ listed),
      ),
    )
