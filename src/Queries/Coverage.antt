-- ===== src/Queries/Coverage.antt =====
-- Which views are fetched again after a change.
use etl_nexus.Common.{
  Bool, true, false, false≢true, Bool-cases, String, List, [], ◌∷◌, ◌++◌, none, some, ◌≡◌, ◌↔◌, ◌⊎◌,
  inl, inr, refl, ap, arith,
}
use etl_nexus.Queries.{
  text, QueryKey, View, data_products, pipeline_detail, revisions, tables, table_schema, key_of,
  field_or_absent, update_settled, restore_settled, edit_saved, list_changed, is_invalidated,
}

-- The views that show something of a product: every list of products, its detail, its history.
abbrev pub Shows : String → View → Type 0
Shows id (data_products query params) = Unit
Shows id (pipeline_detail none) = ⊥
Shows id (pipeline_detail (some other)) = other ≡ id
Shows id (revisions other f) = other ≡ id
Shows id (tables teams query) = ⊥
Shows id (table_schema namespace table) = ⊥

-- the same without the histories
abbrev pub ShowsCurrent : String → View → Type 0
ShowsCurrent id (revisions other f) = ⊥
ShowsCurrent id view = Shows id view

-- A key is matched by the keys that it begins.
abbrev pub MatchesPrefixes : (QueryKey → QueryKey → Bool) → Type 0
MatchesPrefixes matches = (key rest : QueryKey) → matches key (key ++ rest) ≡ true

-- A key that matches another one begins it.
abbrev pub MatchesOnlyPrefixes : (QueryKey → QueryKey → Bool) → Type 0
MatchesOnlyPrefixes matches =
    (key whole : QueryKey) → matches key whole ≡ true → (rest : QueryKey) × (whole ≡ key ++ rest)

-- The key is matched by one of the keys.
abbrev Some : (QueryKey → Type 0) → List QueryKey → Type 0
Some P [] = ⊥
Some P (key ∷ keys) = P key ⊎ Some P keys

abbrev Begins : QueryKey → QueryKey → Type 0
Begins whole key = (rest : QueryKey) × (whole ≡ key ++ rest)

module _ (matches : QueryKey → QueryKey → Bool) (all_prefixes : MatchesPrefixes matches)
    (only_prefixes : MatchesOnlyPrefixes matches) where
  from_Begins :
      (keys : List QueryKey) (view : View)
      → Some (Begins (key_of view)) keys
      → is_invalidated matches keys view ≡ true
  unfolding is_invalidated
  from_Begins [] view h = elim h [ ]
  from_Begins (key ∷ keys) view (inl (rest, e)) =
      let found : matches key (key_of view) ≡ true = rw e (all_prefixes key rest) in ground arith
  from_Begins (key ∷ keys) view (inr later) = ground (arith, from_Begins keys view later)

  to_Begins :
      (keys : List QueryKey) (view : View)
      → is_invalidated matches keys view ≡ true
      → Some (Begins (key_of view)) keys
  unfolding is_invalidated
  to_Begins [] view h = absurd (false≢true h)
  to_Begins (key ∷ keys) view h = elim (Bool-cases (matches key (key_of view))) [
    | inl found ↦ inl (only_prefixes key (key_of view) found)
    | inr other ↦ inr (to_Begins keys view (ground arith))
  ]

-- The detail of the product, the lists and the histories of the product, in this order.
abbrev all_keys : String → List QueryKey
all_keys id =
    (text "pipeline" ∷ text id ∷ [])
    ∷ (text "data-products" ∷ [])
    ∷ (text "revisions" ∷ text id ∷ [])
    ∷ []

Shows-Begins :
    (id : String) (view : View) → Shows id view → Some (Begins (key_of view)) (all_keys id)
unfolding key_of
Shows-Begins id (data_products query params) h = inr (inl (_, refl))
Shows-Begins id (pipeline_detail (some other)) h =
    inl ([], ap (λ t. text "pipeline" ∷ text t ∷ []) h)
Shows-Begins id (pipeline_detail none) h = elim h [ ]
Shows-Begins id (tables _ _) h = elim h [ ]
Shows-Begins id (table_schema _ _) h = elim h [ ]
Shows-Begins id (revisions other f) h =
    inr (inr (inl (_, ap (λ t. text "revisions" ∷ text t ∷ field_or_absent f ∷ []) h)))

Begins-Shows :
    (id : String) (view : View) → Some (Begins (key_of view)) (all_keys id) → Shows id view
unfolding key_of
Begins-Shows id (data_products query params) h = tt
Begins-Shows id (pipeline_detail none) (inl (rest, e)) = cc
Begins-Shows id (pipeline_detail none) (inr (inl (rest, e))) = cc
Begins-Shows id (pipeline_detail none) (inr (inr (inl (rest, e)))) = cc
Begins-Shows id (pipeline_detail (some other)) (inl (rest, e)) = cc
Begins-Shows id (pipeline_detail (some other)) (inr (inl (rest, e))) = cc
Begins-Shows id (pipeline_detail (some other)) (inr (inr (inl (rest, e)))) = cc
Begins-Shows id (pipeline_detail (some other)) (inr (inr (inr none_left))) = elim none_left [ ]
Begins-Shows id (revisions other f) (inl (rest, e)) = cc
Begins-Shows id (revisions other f) (inr (inl (rest, e))) = cc
Begins-Shows id (revisions other f) (inr (inr (inl (rest, e)))) = cc
Begins-Shows id (revisions other f) (inr (inr (inr none_left))) = elim none_left [ ]
Begins-Shows id (tables teams query) (inl (rest, e)) = cc
Begins-Shows id (tables teams query) (inr (inl (rest, e))) = cc
Begins-Shows id (tables teams query) (inr (inr (inl (rest, e)))) = cc
Begins-Shows id (pipeline_detail none) (inr (inr (inr none_left))) = elim none_left [ ]
Begins-Shows id (tables teams query) (inr (inr (inr none_left))) = elim none_left [ ]
Begins-Shows id (table_schema namespace table) (inl (rest, e)) = cc
Begins-Shows id (table_schema namespace table) (inr (inl (rest, e))) = cc
Begins-Shows id (table_schema namespace table) (inr (inr (inl (rest, e)))) = cc
Begins-Shows id (table_schema namespace table) (inr (inr (inr none_left))) = elim none_left [ ]

-- the keys of the detail and of the lists
abbrev current_keys : String → List QueryKey
current_keys id = (text "pipeline" ∷ text id ∷ []) ∷ (text "data-products" ∷ []) ∷ []

current-Begins :
    (id : String) (view : View)
    → ShowsCurrent id view
    → Some (Begins (key_of view)) (current_keys id)
unfolding key_of
current-Begins id (data_products query params) h = inr (inl (_, refl))
current-Begins id (pipeline_detail none) h = elim h [ ]
current-Begins id (pipeline_detail (some other)) h =
    inl ([], ap (λ t. text "pipeline" ∷ text t ∷ []) h)
current-Begins id (revisions other f) h = elim h [ ]
current-Begins id (tables _ _) h = elim h [ ]
current-Begins id (table_schema _ _) h = elim h [ ]

Begins-current :
    (id : String) (view : View)
    → Some (Begins (key_of view)) (current_keys id)
    → ShowsCurrent id view
unfolding key_of
Begins-current id (data_products query params) h = tt
Begins-current id (pipeline_detail none) (inl (rest, e)) = cc
Begins-current id (pipeline_detail none) (inr (inl (rest, e))) = cc
Begins-current id (pipeline_detail (some other)) (inl (rest, e)) = cc
Begins-current id (pipeline_detail (some other)) (inr (inl (rest, e))) = cc
Begins-current id (pipeline_detail (some other)) (inr (inr none_left)) = elim none_left [ ]
Begins-current id (revisions other f) (inl (rest, e)) = cc
Begins-current id (revisions other f) (inr (inl (rest, e))) = cc
Begins-current id (tables teams query) (inl (rest, e)) = cc
Begins-current id (tables teams query) (inr (inl (rest, e))) = cc
Begins-current id (pipeline_detail none) (inr (inr none_left)) = elim none_left [ ]
Begins-current id (revisions other f) (inr (inr none_left)) = elim none_left [ ]
Begins-current id (tables teams query) (inr (inr none_left)) = elim none_left [ ]
Begins-current id (table_schema namespace table) (inl (rest, e)) = cc
Begins-current id (table_schema namespace table) (inr (inl (rest, e))) = cc
Begins-current id (table_schema namespace table) (inr (inr none_left)) = elim none_left [ ]

-- The view is a list of products.
abbrev pub IsProductList : View → Type 0
IsProductList (data_products query params) = Unit
IsProductList (pipeline_detail id) = ⊥
IsProductList (revisions id f) = ⊥
IsProductList (tables teams query) = ⊥
IsProductList (table_schema namespace table) = ⊥

list-Begins : (view : View) → IsProductList view → Some (Begins (key_of view)) list_changed
unfolding key_of list_changed
list-Begins (data_products query params) h = inl (_, refl)
list-Begins (pipeline_detail id) h = elim h [ ]
list-Begins (revisions id f) h = elim h [ ]
list-Begins (tables teams query) h = elim h [ ]
list-Begins (table_schema namespace table) h = elim h [ ]

Begins-list : (view : View) → Some (Begins (key_of view)) list_changed → IsProductList view
unfolding key_of list_changed
Begins-list (data_products query params) h = tt
Begins-list (pipeline_detail id) (inl (rest, e)) = cc
Begins-list (pipeline_detail id) (inr none_left) = elim none_left [ ]
Begins-list (revisions id f) (inl (rest, e)) = cc
Begins-list (revisions id f) (inr none_left) = elim none_left [ ]
Begins-list (tables teams query) (inl (rest, e)) = cc
Begins-list (tables teams query) (inr none_left) = elim none_left [ ]
Begins-list (table_schema namespace table) (inl (rest, e)) = cc
Begins-list (table_schema namespace table) (inr none_left) = elim none_left [ ]

module _ (matches : QueryKey → QueryKey → Bool) (all_prefixes : MatchesPrefixes matches)
    (only_prefixes : MatchesOnlyPrefixes matches) where
  all_keys-Shows :
      (id : String) (view : View)
      → (is_invalidated matches (all_keys id) view ≡ true) ↔ Shows id view
  all_keys-Shows id view = (
    λ h. Begins-Shows id view (to_Begins matches all_prefixes only_prefixes _ view h),
    λ h. from_Begins matches all_prefixes only_prefixes _ view (Shows-Begins id view h),
  )

  -- the order of the keys does not count
  restored_same :
      (id : String) (view : View)
      → is_invalidated matches (restore_settled id true).invalidated view
        ≡ is_invalidated matches (all_keys id) view
  unfolding restore_settled is_invalidated
  restored_same id view = ground arith

  restored_none :
      (id : String) (view : View)
      → is_invalidated matches (restore_settled id false).invalidated view ≡ false
  unfolding restore_settled is_invalidated
  restored_none id view = refl

  updated_none :
      (id : String) (view : View)
      → is_invalidated matches (update_settled id false).invalidated view ≡ false
  unfolding update_settled is_invalidated
  updated_none id view = refl

  -- Where a key matches exactly the keys that it begins: after a product was updated through the
  -- page, the views that are fetched again are those that show the product (its detail, its
  -- histories, every list), and after a revision was restored too; a refused call leaves all.
  pub update_settled-Shows :
      (id : String) (view : View)
      → ((is_invalidated matches (update_settled id true).invalidated view ≡ true) ↔ Shows id view)
        × (((is_invalidated matches (restore_settled id true).invalidated view ≡ true)
              ↔ Shows id view)
            × ((is_invalidated matches (update_settled id false).invalidated view ≡ false)
                × (is_invalidated matches (restore_settled id false).invalidated view ≡ false)))
  unfolding update_settled
  update_settled-Shows id view =
      let unchanged : is_invalidated matches (restore_settled id false).invalidated view ≡ false =
        restored_none id view in
      (
        all_keys-Shows id view,
        (rw (restored_same id view) (all_keys-Shows id view), (updated_none id view, unchanged)),
      )

  -- Where a key matches exactly the keys that it begins: after the edit modal has saved a product,
  -- the views that are fetched again are those that show it but for its histories, although the
  -- modal writes the documentation; after a product was created or deleted they are the lists.
  pub edit_saved-Shows :
      (id : String) (view : View)
      → ((is_invalidated matches (edit_saved id) view ≡ true) ↔ ShowsCurrent id view)
        × ((is_invalidated matches list_changed view ≡ true) ↔ IsProductList view)
  unfolding edit_saved
  edit_saved-Shows id view = (
    (
      λ h. Begins-current id view (to_Begins matches all_prefixes only_prefixes _ view h),
      λ h. from_Begins matches all_prefixes only_prefixes _ view (current-Begins id view h),
    ),
    (
      λ h. Begins-list view (to_Begins matches all_prefixes only_prefixes _ view h),
      λ h. from_Begins matches all_prefixes only_prefixes _ view (list-Begins view h),
    ),
  )
