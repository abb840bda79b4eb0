-- ===== src/Common/Sorting.antt =====
-- `xs.sort(compare)`, which is stable, and the grouping loop over a `Map` that the registry of
-- products and the catalogue of tables share.
use etl_nexus.Common.Lists.{All}
use etl_nexus.Common.Tests.{if◌then◌else◌, Bool-cases}
use mathlib.Core.Path.{◌≡◌}
use mathlib.Core.Logic.{inl, inr}
use mathlib.Core.Bool.{Bool, true, false}
use mathlib.Core.List.{List, [], ◌∷◌, Perm}
use mathlib.Core.List.Perm

module _ {ℓ} {A : Type ℓ} where
  module _ (le : A → A → Bool) where
    unfoldable pub insert_sorted : A → List A → List A
    insert_sorted x [] = x ∷ []
    insert_sorted x (y ∷ ys) = if le x y then x ∷ y ∷ ys else y ∷ insert_sorted x ys

    unfoldable pub sort : List A → List A
    unfolding insert_sorted
    sort [] = []
    sort (x ∷ xs) = insert_sorted x (sort xs)

    abbrev pub IsSorted : List A → Type 0
    IsSorted [] = Unit
    IsSorted (x ∷ xs) = All (λ y. le x y ≡ true) xs × IsSorted xs

    insert_sorted-perm : (x : A) (xs : List A) → Perm (insert_sorted x xs) (x ∷ xs)
    unfolding insert_sorted
    insert_sorted-perm x [] = Perm.refl _
    insert_sorted-perm x (y ∷ ys) = elim (Bool-cases (le x y)) [
      | inl first ↦ rw first (Perm.refl _)
      | inr later ↦ rw later (Perm.trans (Perm.cons y (insert_sorted-perm x ys)) (Perm.swap x y ys))
    ]

    pub sort-perm : (xs : List A) → Perm (sort xs) xs
    unfolding sort
    sort-perm [] = Perm.refl []
    sort-perm (x ∷ xs) = Perm.trans (insert_sorted-perm x (sort xs)) (Perm.cons x (sort-perm xs))

    module _ {κ} (P : A → Type κ) where
      All-insert_sorted : (x : A) (xs : List A) → P x → All P xs → All P (insert_sorted x xs)
      unfolding insert_sorted
      All-insert_sorted x [] p h = (p, tt)
      All-insert_sorted x (y ∷ ys) p (q, h) = elim (Bool-cases (le x y)) [
        | inl first ↦ rw first (p, (q, h))
        | inr later ↦ rw later (q, All-insert_sorted x ys p h)
      ]

      -- What holds of every entry holds of every entry of the sorted list.
      pub All-sort : (xs : List A) → All P xs → All P (sort xs)
      unfolding sort
      All-sort [] h = tt
      All-sort (x ∷ xs) (p, h) = All-insert_sorted x (sort xs) p (All-sort xs h)

    module _ (total : (x y : A) → le x y ≡ false → le y x ≡ true)
        (transitive : (x y z : A) → le x y ≡ true → le y z ≡ true → le x z ≡ true) where
      All-le :
          (x y : A) (xs : List A)
          → le x y ≡ true
          → All (λ z. le y z ≡ true) xs
          → All (λ z. le x z ≡ true) xs
      All-le x y [] h k = tt
      All-le x y (z ∷ zs) h (q, k) = (transitive x y z h q, All-le x y zs h k)

      insert_sorted-IsSorted : (x : A) (xs : List A) → IsSorted xs → IsSorted (insert_sorted x xs)
      unfolding insert_sorted
      insert_sorted-IsSorted x [] h = (tt, tt)
      insert_sorted-IsSorted x (y ∷ ys) (below, h) = elim (Bool-cases (le x y)) [
        | inl first ↦ rw first ((first, All-le x y ys first below), (below, h))
        | inr later ↦ rw later (
          All-insert_sorted (λ z. le y z ≡ true) x ys (total x y later) below,
          insert_sorted-IsSorted x ys h,
        )
      ]

      pub sort-IsSorted : (xs : List A) → IsSorted (sort xs)
      unfolding sort
      sort-IsSorted [] = tt
      sort-IsSorted (x ∷ xs) = insert_sorted-IsSorted x (sort xs) (sort-IsSorted xs)
