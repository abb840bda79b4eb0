-- ===== src/Common/Grouping.antt =====
-- The grouping loop over a `Map` from text to array that the registry of products and the
-- catalogue of tables share.
use etl_nexus.Common.Lists.{All, All-append}
use etl_nexus.Common.Sets.{has, IsSetLike}
use etl_nexus.Common.Sorting.{insert_sorted, sort}
use etl_nexus.Common.Tests.{if◌then◌else◌, ◌===◌, Bool-cases}
use Prim.Native.String.{String}
use native.Mathlib.Omega.{arith}
use text.Mathlib.TextEquality.{eq_iff}
use mathlib.Core.Path.{◌≡◌, refl, sym}
use mathlib.Core.Logic.{inl, inr, ◌≢◌}
use mathlib.Core.Bool.{Bool, false, ◌||◌}
use mathlib.Core.List.{
  List, [], ◌∷◌, ◌++◌, Perm, map, append_assoc, append-nil, perm_middle, perm_append_comm,
}
use mathlib.Core.List.Perm

pub record Group {ℓ} (A : Type ℓ) : Type ℓ where
  pub category : String
  pub members : List A

module _ {ℓ} {A : Type ℓ} where
  -- `if (!groups.has(k)) groups.set(k, []); groups.get(k).push(x)`
  unfoldable pub add_to_group : String → A → List (Group A) → List (Group A)
  add_to_group k x [] = record { category = k; members = x ∷ [] } ∷ []
  add_to_group k x (g ∷ gs) =
      if g.category === k
      then record g { members = g.members ++ x ∷ [] } ∷ gs
      else g ∷ add_to_group k x gs

  abbrev pub categories : List (Group A) → List String
  categories = map (λ g. g.category)

  -- the entries of all groups, in their order
  abbrev pub all_members : List (Group A) → List A
  all_members [] = []
  all_members (g ∷ gs) = g.members ++ all_members gs

  all_members-add_to_group :
      (k : String) (x : A) (gs : List (Group A))
      → Perm (all_members (add_to_group k x gs)) (x ∷ all_members gs)
  unfolding add_to_group
  all_members-add_to_group k x [] = Perm.refl _
  all_members-add_to_group k x (g ∷ gs) = elim (Bool-cases (g.category === k)) [
    | inl same ↦ rw same (
        rw (append_assoc g.members (x ∷ []) (all_members gs))
          (perm_middle g.members (all_members gs)))
    | inr other ↦ rw other (
        Perm.trans (Perm.append_left g.members (all_members-add_to_group k x gs))
          (perm_middle g.members (all_members gs)))
  ]

  has-add_to_group :
      (c k : String) (x : A) (gs : List (Group A))
      → has c (categories (add_to_group k x gs)) ≡ (k === c || has c (categories gs))
  unfolding add_to_group has
  has-add_to_group c k x [] = refl
  has-add_to_group c k x (g ∷ gs) =
      ground
        (arith, has-add_to_group c k x gs, eq_iff g.category k, eq_iff g.category c, eq_iff k c)

  add_to_group-IsSetLike :
      (k : String) (x : A) (gs : List (Group A))
      → IsSetLike (categories gs)
      → IsSetLike (categories (add_to_group k x gs))
  unfolding add_to_group has
  add_to_group-IsSetLike k x [] h = (refl, tt)
  add_to_group-IsSetLike k x (g ∷ gs) (fresh, h) = ground (
    arith,
    add_to_group-IsSetLike k x gs h,
    has-add_to_group g.category k x gs,
    eq_iff g.category k,
    eq_iff k g.category,
  )

  module _ (key : A → String) where
    -- `for (const x of xs) …`
    unfoldable pub group_from : List (Group A) → List A → List (Group A)
    unfolding add_to_group
    group_from gs [] = gs
    group_from gs (x ∷ xs) = group_from (add_to_group (key x) x gs) xs

    unfoldable pub group_by : List A → List (Group A)
    unfolding group_from
    group_by xs = group_from [] xs

    -- A group holds at least one entry, and only entries of its category.
    pub record IsGroup (g : Group A) : Type ℓ where
      pub non_empty : g.members ≢ []
      pub same_key : All (λ x. key x ≡ g.category) g.members

    append-ne-nil : (xs : List A) (x : A) → xs ++ x ∷ [] ≢ []
    append-ne-nil [] x e = cc
    append-ne-nil (y ∷ xs) x e = cc

    add_to_group-IsGroup :
        (x : A) (gs : List (Group A)) → All IsGroup gs → All IsGroup (add_to_group (key x) x gs)
    unfolding add_to_group
    add_to_group-IsGroup x [] h = (record { non_empty = λ e. cc; same_key = (refl, tt) }, tt)
    add_to_group-IsGroup x (g ∷ gs) (q, h) = elim (Bool-cases (g.category === key x)) [
      | inl same ↦ rw same (
        record {
          non_empty = append-ne-nil g.members x;
          same_key =
              All-append (λ y. key y ≡ g.category) g.members (x ∷ []) q.same_key
                (sym ((eq_iff g.category (key x)).0 same), tt);
        },
        h,
      )
      | inr other ↦ rw other (q, add_to_group-IsGroup x gs h)
    ]

    group_from-perm :
        (gs : List (Group A)) (xs : List A)
        → Perm (all_members (group_from gs xs)) (all_members gs ++ xs)
    unfolding group_from
    group_from-perm gs [] = rw append-nil (Perm.refl _)
    group_from-perm gs (x ∷ xs) = Perm.trans (group_from-perm (add_to_group (key x) x gs) xs) (
        Perm.trans (Perm.append_right xs (all_members-add_to_group (key x) x gs))
          (Perm.symm (perm_middle (all_members gs) xs)))

    group_from-IsGroup :
        (gs : List (Group A)) (xs : List A) → All IsGroup gs → All IsGroup (group_from gs xs)
    unfolding group_from
    group_from-IsGroup gs [] h = h
    group_from-IsGroup gs (x ∷ xs) h =
        group_from-IsGroup (add_to_group (key x) x gs) xs (add_to_group-IsGroup x gs h)

    group_from-IsSetLike :
        (gs : List (Group A)) (xs : List A)
        → IsSetLike (categories gs)
        → IsSetLike (categories (group_from gs xs))
    unfolding group_from
    group_from-IsSetLike gs [] h = h
    group_from-IsSetLike gs (x ∷ xs) h =
        group_from-IsSetLike (add_to_group (key x) x gs) xs (add_to_group-IsSetLike (key x) x gs h)

    -- The groups share out the entries.
    pub group_by-perm : (xs : List A) → Perm (all_members (group_by xs)) xs
    unfolding group_by
    group_by-perm xs = group_from-perm [] xs

    pub group_by-IsGroup : (xs : List A) → All IsGroup (group_by xs)
    unfolding group_by
    group_by-IsGroup xs = group_from-IsGroup [] xs tt

    -- No category stands twice.
    pub group_by-IsSetLike : (xs : List A) → IsSetLike (categories (group_by xs))
    unfolding group_by
    group_by-IsSetLike xs = group_from-IsSetLike [] xs tt

-- Sorting the groups keeps their members and their categories.
module _ {ℓ} {A : Type ℓ} (le : Group A → Group A → Bool) where
  all_members-insert_sorted :
      (g : Group A) (gs : List (Group A))
      → Perm (all_members (insert_sorted le g gs)) (g.members ++ all_members gs)
  unfolding insert_sorted
  all_members-insert_sorted g [] = Perm.refl _
  all_members-insert_sorted g (h ∷ gs) = elim (Bool-cases (le g h)) [
    | inl first ↦ rw first (Perm.refl _)
    | inr later ↦ rw later (
        Perm.trans (Perm.append_left h.members (all_members-insert_sorted g gs)) (
          rw
            (
              ← append_assoc h.members g.members (all_members gs),
              ← append_assoc g.members h.members (all_members gs),
            )
            (Perm.append_right (all_members gs) (perm_append_comm h.members g.members))))
  ]

  pub all_members-sort : (gs : List (Group A)) → Perm (all_members (sort le gs)) (all_members gs)
  unfolding sort
  all_members-sort [] = Perm.refl []
  all_members-sort (g ∷ gs) =
      Perm.trans (all_members-insert_sorted g (sort le gs))
        (Perm.append_left g.members (all_members-sort gs))

  has-insert_sorted :
      (c : String) (g : Group A) (gs : List (Group A))
      → has c (categories (insert_sorted le g gs)) ≡ (g.category === c || has c (categories gs))
  unfolding insert_sorted has
  has-insert_sorted c g [] = refl
  has-insert_sorted c g (h ∷ gs) = ground (arith, has-insert_sorted c g gs)

  has-sort :
      (c : String) (gs : List (Group A)) → has c (categories (sort le gs)) ≡ has c (categories gs)
  unfolding sort has
  has-sort c [] = refl
  has-sort c (g ∷ gs) = ground (arith, has-sort c gs, has-insert_sorted c g (sort le gs))

  insert_sorted-IsSetLike :
      (g : Group A) (gs : List (Group A))
      → has g.category (categories gs) ≡ false
      → IsSetLike (categories gs)
      → IsSetLike (categories (insert_sorted le g gs))
  unfolding insert_sorted has
  insert_sorted-IsSetLike g [] fresh h = (refl, tt)
  insert_sorted-IsSetLike g (h ∷ gs) fresh (k, ks) = ground (
    arith,
    insert_sorted-IsSetLike g gs,
    has-insert_sorted h.category g gs,
    eq_iff h.category g.category,
    eq_iff g.category h.category,
  )

  pub sort-IsSetLike :
      (gs : List (Group A)) → IsSetLike (categories gs) → IsSetLike (categories (sort le gs))
  unfolding sort
  sort-IsSetLike [] h = tt
  sort-IsSetLike (g ∷ gs) (fresh, h) =
      insert_sorted-IsSetLike g (sort le gs) (rw has-sort fresh) (sort-IsSetLike gs h)

-- What holds of every entry holds of every entry of every group.
module _ {ℓ κ} {A : Type ℓ} (key : A → String) (P : A → Type κ) where
  All-add_to_group :
      (k : String) (x : A) (gs : List (Group A))
      → P x
      → All (λ g. All P g.members) gs
      → All (λ g. All P g.members) (add_to_group k x gs)
  unfolding add_to_group
  All-add_to_group k x [] p h = ((p, tt), tt)
  All-add_to_group k x (g ∷ gs) p (q, h) = elim (Bool-cases (g.category === k)) [
    | inl same ↦ rw same (All-append P g.members (x ∷ []) q (p, tt), h)
    | inr other ↦ rw other (q, All-add_to_group k x gs p h)
  ]

  All-group_from :
      (gs : List (Group A)) (xs : List A)
      → All (λ g. All P g.members) gs
      → All P xs
      → All (λ g. All P g.members) (group_from key gs xs)
  unfolding group_from
  All-group_from gs [] h _ = h
  All-group_from gs (x ∷ xs) h (p, k) =
      All-group_from (add_to_group (key x) x gs) xs (All-add_to_group (key x) x gs p h) k

  pub All-group_by : (xs : List A) → All P xs → All (λ g. All P g.members) (group_by key xs)
  unfolding group_by
  All-group_by xs h = All-group_from [] xs tt h
