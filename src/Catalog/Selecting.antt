-- ===== src/Catalog/Selecting.antt =====
-- The selected table, and the tables that are chosen for a product.
use etl_nexus.Common.{
  Bool, true, false, not, ◌&&◌, String, List, [], ◌∷◌, Option, if◌then◌else◌, ◌===◌, filter, any,
  all, has, non_empty_list, ◌≡◌, ◌≢◌, refl, arith, eq_iff, eq_refl, has-append, subst, Bool-cases,
  inl, inr,
}
use etl_nexus.Catalog.{TableListItem, table_key, is_key_of, keep_selection, toggle_all_filtered}

has-filter :
    (p : String → Bool) (x : String) (xs : List String) → has x (filter p xs) ≡ (p x && has x xs)
unfolding has
has-filter p x [] = ground arith
has-filter p x (y ∷ xs) = elim (Bool-cases (y === x)) [
  | inl same ↦
      let equal : y ≡ x = (eq_iff y x).0 same in
      let rest = has-filter p x xs in
      let pred : p y ≡ p x = subst (λ z. p y ≡ p z) equal refl in ground (arith)
  | inr other ↦ ground (arith, has-filter p x xs)
]

has-non_empty_list : (x : String) (xs : List String) → non_empty_list xs ≡ false → has x xs ≡ false
unfolding has
has-non_empty_list x [] h = refl
has-non_empty_list x (y ∷ xs) h = absurd (cc)

-- A click on "Select all" or "Deselect" changes the tables that pass the search and no others: they
-- are all taken off if each of them was chosen, and else they are all chosen.
pub toggle_all_filtered_exact :
    (filtered_names value : List String) (name : String)
    → has name (toggle_all_filtered filtered_names value) ≡ (
        if has name filtered_names
        then not (all (λ n. has n value) filtered_names)
        else has name value)
unfolding toggle_all_filtered
toggle_all_filtered_exact filtered_names value name = ground (
  arith,
  has-non_empty_list name filtered_names,
  has-filter (λ v. not (has v filtered_names)) name value,
  has-filter (λ n. not (has n value)) name filtered_names,
  has-append name value (filter (λ n. not (has n value)) filtered_names),
)

-- After the effect, the selection is a table of the list, or there is none; and the effect does not
-- change it again.
pub keep_selection-IsSettled :
    (filtered : List TableListItem) (selected_key : Option String)
    → (filtered ≢ [] → any (is_key_of (keep_selection filtered selected_key)) filtered ≡ true)
      × (keep_selection filtered (keep_selection filtered selected_key)
          ≡ keep_selection filtered selected_key)
unfolding keep_selection is_key_of
keep_selection-IsSettled [] selected_key = (λ h. absurd (h refl), refl)
keep_selection-IsSettled (t ∷ ts) selected_key = ground (arith, eq_refl (table_key t))
