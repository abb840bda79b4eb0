-- ===== src/Registry/Grouped.antt =====
-- The product list: what is kept, and how it is grouped.
use etl_nexus.Common.{
  Bool, true, false, String, List, [], ◌∷◌, ◌++◌, map, ◌≡◌, ◌≢◌, refl, sym, ap, subst, filter, has,
  Group, group_by, All, All-append, append-nil, categories, all_members, IsGroup, group_by-perm,
  group_by-IsGroup, group_by-IsSetLike, IsSetLike, all_members-sort, sort-IsSetLike, Perm, IsSorted,
  All-sort, sort-perm, sort-IsSorted,
}
use mathlib.Core.List.Perm
use etl_nexus.Registry.{
  ListItem, group_of, by_name, by_category, sort_members, team_groups, favorites_group,
  shown_favorites, grouped_products,
}

module _ (le : String → String → Bool) where
  all_members-sort_members :
      (gs : List (Group ListItem)) → Perm (all_members (map (sort_members le) gs)) (all_members gs)
  all_members-sort_members [] = Perm.refl []
  all_members-sort_members (g ∷ gs) =
      Perm.append (sort-perm (by_name le) g.members) (all_members-sort_members gs)

  categories-sort_members :
      (gs : List (Group ListItem)) → categories (map (sort_members le) gs) ≡ categories gs
  categories-sort_members [] = refl
  categories-sort_members (g ∷ gs) = ap (λ cs. g.category ∷ cs) (categories-sort_members gs)

  ne-nil_of_perm : {xs ys : List ListItem} → Perm xs ys → ys ≢ [] → xs ≢ []
  ne-nil_of_perm {ys} p h e = h (sym (Perm.nil-eq (subst (λ zs. Perm zs ys) e p)))

  sort_members-IsGroup :
      (g : Group ListItem) → IsGroup group_of g → IsGroup group_of (sort_members le g)
  sort_members-IsGroup g h = record {
    non_empty = ne-nil_of_perm (sort-perm (by_name le) g.members) h.non_empty;
    same_key = All-sort (by_name le) (λ p. group_of p ≡ g.category) g.members h.same_key;
  }

  sort_members-All :
      (gs : List (Group ListItem))
      → All (IsGroup group_of) gs
      → All (IsGroup group_of) (map (sort_members le) gs)
  sort_members-All [] h = tt
  sort_members-All (g ∷ gs) (q, h) = (sort_members-IsGroup g q, sort_members-All gs h)

  team_groups-perm :
      (filtered : List ListItem) → Perm (all_members (team_groups le filtered)) filtered
  unfolding team_groups
  team_groups-perm filtered =
      Perm.trans (all_members-sort (by_category le) _)
        (Perm.trans (all_members-sort_members _) (group_by-perm group_of filtered))

  team_groups-IsGroup :
      (filtered : List ListItem) → All (IsGroup group_of) (team_groups le filtered)
  unfolding team_groups
  team_groups-IsGroup filtered =
      All-sort (by_category le) (IsGroup group_of) _
        (sort_members-All _ (group_by-IsGroup group_of filtered))

  team_groups-IsSetLike :
      (filtered : List ListItem) → IsSetLike (categories (team_groups le filtered))
  unfolding team_groups
  team_groups-IsSetLike filtered =
      sort-IsSetLike (by_category le) _
        (rw categories-sort_members (group_by-IsSetLike group_of filtered))

  sort_members-IsSorted :
      (total : (x y : ListItem) → by_name le x y ≡ false → by_name le y x ≡ true)
      (transitive : (x y z : ListItem)
        → by_name le x y ≡ true
        → by_name le y z ≡ true
        → by_name le x z ≡ true)
      (gs : List (Group ListItem))
      → All (λ g. IsSorted (by_name le) g.members) (map (sort_members le) gs)
  sort_members-IsSorted total transitive [] = tt
  sort_members-IsSorted total transitive (g ∷ gs) = (
    sort-IsSorted (by_name le) total transitive g.members,
    sort_members-IsSorted total transitive gs,
  )

  -- What the product list shows of the products that pass the filters.
  pub record IsGrouping (favorite_ids : List String) (filtered : List ListItem)
      (groups : List (Group ListItem)) : Type 0 where
    pub favorites : List (Group ListItem)
    pub teams : List (Group ListItem)
    pub split : groups ≡ favorites ++ teams
    pub favorite_members : all_members favorites ≡ filter (λ p. has p.id favorite_ids) filtered
    pub partition : Perm (all_members teams) filtered
    pub distinct : IsSetLike (categories teams)
    pub non_empty : All (λ g. g.members ≢ []) groups
    pub same_team : All (λ g. All (λ p. group_of p ≡ g.category) g.members) teams
    pub sorted : IsSorted (by_category le) teams
    pub sorted_members : All (λ g. IsSorted (by_name le) g.members) teams

All-of {ℓ κ ν} :
    {A : Type ℓ} (P : A → Type κ) (Q : A → Type ν) (f : (x : A) → P x → Q x) (xs : List A)
    → All P xs
    → All Q xs
All-of P Q f [] h = tt
All-of P Q f (x ∷ xs) (p, h) = (f x p, All-of P Q f xs h)

all_members-shown_favorites : (ps : List ListItem) → all_members (shown_favorites ps) ≡ ps
all_members-shown_favorites [] = refl
all_members-shown_favorites (p ∷ ps) = append-nil (p ∷ ps)

shown_favorites-non_empty : (ps : List ListItem) → All (λ g. g.members ≢ []) (shown_favorites ps)
shown_favorites-non_empty [] = tt
shown_favorites-non_empty (p ∷ ps) = (λ e. cc, tt)

pub grouped_products-non_empty :
    (le : String → String → Bool) (favorite_ids : List String) (filtered : List ListItem)
    → All (λ g. g.members ≢ []) (grouped_products le favorite_ids filtered)
unfolding grouped_products
grouped_products-non_empty le favorite_ids [] = tt
grouped_products-non_empty le favorite_ids (p ∷ ps) =
    All-append (λ g. g.members ≢ []) (favorites_group favorite_ids (p ∷ ps))
      (team_groups le (p ∷ ps)) (shown_favorites-non_empty _)
      (All-of (IsGroup group_of) (λ g. g.members ≢ []) (λ g h. h.non_empty)
        (team_groups le (p ∷ ps)) (team_groups-IsGroup le (p ∷ ps)))

append_ne_nil {ℓ} : {A : Type ℓ} (xs ys : List A) → ys ≢ [] → xs ++ ys ≢ []
append_ne_nil [] ys h e = h e
append_ne_nil (x ∷ xs) ys h e = cc

pub grouped_products-ne-nil :
    (le : String → String → Bool) (favorite_ids : List String) (filtered : List ListItem)
    → filtered ≢ []
    → grouped_products le favorite_ids filtered ≢ []
unfolding grouped_products
grouped_products-ne-nil le favorite_ids [] h = absurd (h refl)
grouped_products-ne-nil le favorite_ids (p ∷ ps) h =
    append_ne_nil (favorites_group favorite_ids (p ∷ ps)) (team_groups le (p ∷ ps)) (λ e. h (
      sym (
        Perm.nil-eq
          (subst (λ gs. Perm (all_members gs) (p ∷ ps)) e (team_groups-perm le (p ∷ ps))))))

-- If the order of the names is total and transitive, the product list shows the favourites first
-- and then every product that passes the filters once, in the group of its team; no team stands
-- twice, no group is empty, and the teams and the products of each team are in order.
pub grouped_products-IsGrouping :
    (le : String → String → Bool) (total : (x y : String) → le x y ≡ false → le y x ≡ true)
    (transitive : (x y z : String) → le x y ≡ true → le y z ≡ true → le x z ≡ true)
    (favorite_ids : List String) (filtered : List ListItem)
    → IsGrouping le favorite_ids filtered (grouped_products le favorite_ids filtered)
unfolding grouped_products
grouped_products-IsGrouping le total transitive favorite_ids [] = record {
  favorites = [];
  teams = [];
  split = refl;
  favorite_members = refl;
  partition = Perm.refl [];
  distinct = tt;
  non_empty = tt;
  same_team = tt;
  sorted = tt;
  sorted_members = tt;
}
grouped_products-IsGrouping le total transitive favorite_ids (p ∷ ps) = record {
  favorites = favorites_group favorite_ids (p ∷ ps);
  teams = team_groups le (p ∷ ps);
  split = refl;
  favorite_members = all_members-shown_favorites _;
  partition = team_groups-perm le (p ∷ ps);
  distinct = team_groups-IsSetLike le (p ∷ ps);
  non_empty = grouped_products-non_empty le favorite_ids (p ∷ ps);
  same_team =
      All-of (IsGroup group_of) (λ g. All (λ q. group_of q ≡ g.category) g.members)
        (λ g h. h.same_key) (team_groups le (p ∷ ps)) (team_groups-IsGroup le (p ∷ ps));
  sorted =
      sort-IsSorted (by_category le) (λ g h. total g.category h.category)
        (λ g h k. transitive g.category h.category k.category) _;
  sorted_members =
      All-sort (by_category le) (λ g. IsSorted (by_name le) g.members) _
        (sort_members-IsSorted le (λ q r. total q.name r.name)
          (λ q r t. transitive q.name r.name t.name) (group_by group_of (p ∷ ps)));
}
