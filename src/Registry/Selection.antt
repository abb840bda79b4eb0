-- ===== src/Registry/Selection.antt =====
-- The two effects that keep the selected product among those shown.
use etl_nexus.Common.{
  Bool, true, false, String, List, [], ◌∷◌, ◌++◌, map, Option, none, some, arith, ◌≡◌, ◌≢◌, refl,
  subst, truthy, any-append, filter, has, Group, inl, inr, Bool-cases, All, All-append,
  All-group_by, All-sort, eq_iff, eq_refl, append_assoc,
}
use etl_nexus.Registry.Grouped.{grouped_products-non_empty, grouped_products-ne-nil}
use etl_nexus.Registry.{
  ListItem, group_of, by_name, by_category, sort_members, team_groups, favorites_group,
  shown_favorites, grouped_products, first_id, head_id, selection_effects, shows,
}

-- The product is one of those shown, and has an id.
abbrev IsListed : List ListItem → ListItem → Type 0
IsListed filtered p = (shows filtered (some p.id) ≡ true) × (p.id ≢ "")

All-IsListed :
    (before after : List ListItem)
    → All (λ p. p.id ≢ "") after
    → All (IsListed (before ++ after)) after
All-IsListed before [] h = tt
All-IsListed before (p ∷ ps) (q, h) = (
  (rw any-append (ground (arith, eq_refl p.id)), q),
  subst (λ l. All (IsListed l) ps) (append_assoc before (p ∷ []) ps)
      (All-IsListed (before ++ p ∷ []) ps h),
)

All-filter {ℓ κ} :
    {A : Type ℓ} (P : A → Type κ) (test : A → Bool) (xs : List A)
    → All P xs
    → All P (filter test xs)
All-filter P test [] h = tt
All-filter P test (x ∷ xs) (p, h) = elim (Bool-cases (test x)) [
  | inl kept ↦ rw kept (p, All-filter P test xs h)
  | inr dropped ↦ rw dropped (All-filter P test xs h)
]

module _ (le : String → String → Bool) (P : ListItem → Type 0) where
  abbrev Within : List (Group ListItem) → Type 0
  Within = All (λ g. All P g.members)

  Within-shown_favorites : (ps : List ListItem) → All P ps → Within (shown_favorites ps)
  Within-shown_favorites [] h = tt
  Within-shown_favorites (p ∷ ps) h = (h, tt)

  Within-sort_members : (gs : List (Group ListItem)) → Within gs → Within (map (sort_members le) gs)
  Within-sort_members [] h = tt
  Within-sort_members (g ∷ gs) (q, h) =
      (All-sort (by_name le) P g.members q, Within-sort_members gs h)

  Within-grouped_products :
      (favorite_ids : List String) (filtered : List ListItem)
      → All P filtered
      → Within (grouped_products le favorite_ids filtered)
  unfolding grouped_products
  Within-grouped_products favorite_ids [] h = tt
  Within-grouped_products favorite_ids (p ∷ ps) h =
      All-append (λ g. All P g.members) (favorites_group favorite_ids (p ∷ ps))
        (team_groups le (p ∷ ps))
        (Within-shown_favorites _ (All-filter P (λ q. has q.id favorite_ids) (p ∷ ps) h))
        (All-sort (by_category le) (λ g. All P g.members) _
          (Within-sort_members _ (All-group_by group_of P (p ∷ ps) h)))

head_id-IsListed :
    (filtered members : List ListItem)
    → members ≢ []
    → All (IsListed filtered) members
    → (p : ListItem) × (head_id members ≡ some p.id) × IsListed filtered p
head_id-IsListed filtered [] h l = absurd (h refl)
head_id-IsListed filtered (p ∷ ps) h (l, _) = (p, refl, l)

first_id-IsListed :
    (filtered : List ListItem) (groups : List (Group ListItem))
    → groups ≢ []
    → All (λ g. g.members ≢ []) groups
    → All (λ g. All (IsListed filtered) g.members) groups
    → (p : ListItem) × (first_id groups ≡ some p.id) × IsListed filtered p
unfolding first_id
first_id-IsListed filtered [] h k l = absurd (h refl)
first_id-IsListed filtered (g ∷ gs) h (k, _) (l, _) = head_id-IsListed filtered g.members k l

-- What both effects of a render lead to: no exception, a selection that is shown, the old one if
-- that was shown, and nothing left to do at the next render.
pub record IsSettled (groups : List (Group ListItem)) (filtered : List ListItem)
    (selected settled : Option String) : Type 0 where
  pub effects : selection_effects groups filtered selected ≡ some settled
  pub shown : shows filtered settled ≡ true
  pub kept : shows filtered selected ≡ true → settled ≡ selected
  pub stable : selection_effects groups filtered settled ≡ some settled

-- A selection that is shown is left alone.
pub selection_effects-shown :
    (groups : List (Group ListItem)) (filtered : List ListItem) (selected : Option String)
    → shows filtered selected ≡ true
    → truthy selected ≡ true
    → selection_effects groups filtered selected ≡ some selected
unfolding selection_effects
selection_effects-shown groups [] selected h k = ground arith
selection_effects-shown groups (p ∷ ps) selected h k = ground arith

truthy-IsListed :
    (filtered : List ListItem) (p : ListItem) → IsListed filtered p → truthy (some p.id) ≡ true
truthy-IsListed filtered p h = ground (arith, eq_iff p.id "")

-- Nothing was selected: the first product of the first group is.
selection_effects-none :
    (groups : List (Group ListItem)) (filtered : List ListItem) (selected : Option String)
    (id : String)
    → groups ≢ []
    → truthy selected ≡ false
    → first_id groups ≡ some id
    → selection_effects groups filtered selected ≡ some (some id)
unfolding selection_effects
selection_effects-none groups [] selected id h k e = ground arith
selection_effects-none groups (p ∷ ps) selected id h k e = ground arith

-- A selection that is not among the products shown is replaced by the first of them.
pub selection_effects-replaced :
    (groups : List (Group ListItem)) (p : ListItem) (ps : List ListItem) (selected : Option String)
    → truthy selected ≡ true
    → shows (p ∷ ps) selected ≡ false
    → selection_effects groups (p ∷ ps) selected ≡ some (some p.id)
unfolding selection_effects
selection_effects-replaced groups p ps selected k e = ground arith

settles_on :
    (groups : List (Group ListItem)) (filtered : List ListItem) (selected : Option String)
    (p : ListItem)
    → IsListed filtered p
    → selection_effects groups filtered selected ≡ some (some p.id)
    → shows filtered selected ≡ false
    → IsSettled groups filtered selected (some p.id)
settles_on groups filtered selected p listed e hidden = record {
  effects = e;
  shown = listed.0;
  kept = λ h. cc;
  stable =
      selection_effects-shown groups filtered (some p.id) listed.0
        (truthy-IsListed filtered p listed);
}

-- An id that is shown is not empty.
truthy_of_shows :
    (filtered : List ListItem) (selected : Option String)
    → All (λ p. p.id ≢ "") filtered
    → shows filtered selected ≡ true
    → truthy selected ≡ true
truthy_of_shows [] (some id) h e = cc
truthy_of_shows filtered none h e = cc
truthy_of_shows (p ∷ ps) (some id) (q, h) e =
    ground (arith, truthy_of_shows ps (some id) h, eq_iff p.id id, eq_iff id "", eq_iff p.id "")

-- If some product is shown and every product has an id, the two effects of a render raise no
-- exception and select a product that is shown: the selected one if that is shown. At the next
-- render they change nothing.
pub selection_effects-IsSettled :
    (le : String → String → Bool) (favorite_ids : List String) (filtered : List ListItem)
    (selected : Option String)
    → filtered ≢ []
    → All (λ p. p.id ≢ "") filtered
    → (settled : Option String) × IsSettled
        (grouped_products le favorite_ids filtered)
        filtered
        selected
        settled
selection_effects-IsSettled le favorite_ids [] selected h ids = absurd (h refl)
selection_effects-IsSettled le favorite_ids (q ∷ qs) selected h ids =
    let groups = grouped_products le favorite_ids (q ∷ qs) in
    let listed = All-IsListed [] (q ∷ qs) ids in
    let group = grouped_products-ne-nil le favorite_ids (q ∷ qs) h in
    let (p, first, p_listed) =
      first_id-IsListed (q ∷ qs) groups group (grouped_products-non_empty le favorite_ids (q ∷ qs))
        (Within-grouped_products le (IsListed (q ∷ qs)) favorite_ids (q ∷ qs) listed) in
    elim (Bool-cases (shows (q ∷ qs) selected)) [
      | inl shown ↦
          let chosen = truthy_of_shows (q ∷ qs) selected ids shown in
          let same = selection_effects-shown groups (q ∷ qs) selected shown chosen in
          (selected, record { effects = same; shown = shown; kept = λ _. refl; stable = same })
      | inr hidden ↦ elim (Bool-cases (truthy selected)) [
        | inl chosen ↦ (
          some q.id,
          settles_on groups (q ∷ qs) selected q listed.0
              (selection_effects-replaced groups q qs selected chosen hidden) hidden,
        )
        | inr missing ↦ (
          some p.id,
          settles_on groups (q ∷ qs) selected p p_listed
              (selection_effects-none groups (q ∷ qs) selected p.id group missing first) hidden,
        )
      ]
    ]
