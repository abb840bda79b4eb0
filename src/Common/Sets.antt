-- ===== src/Common/Sets.antt =====
-- JavaScript's `Set<string>`: a list in the order of insertion, without repetitions.
use mathlib.Core.Path.{◌≡◌, refl, subst}
use mathlib.Core.Logic.{inl, inr}
use mathlib.Core.Bool.{Bool, true, false, not, false≢true, ◌&&◌, ◌||◌}
use mathlib.Core.List.{List, [], ◌∷◌, ◌++◌}
use native.Mathlib.Omega.{arith}
use Prim.Native.String.{String}
use text.Mathlib.TextEquality.{eq_iff}
use etl_nexus.Common.Tests.{if◌then◌else◌, ◌===◌, Bool-cases}
use etl_nexus.Common.Lists.{all}

-- `set.has(x)`, and `xs.includes(x)` on a list
unfoldable pub has : String → List String → Bool
has x [] = false
has x (y ∷ ys) = y === x || has x ys

-- `set.add(x)`
unfoldable pub add : String → List String → List String
unfolding has
add x set = if has x set then set else set ++ x ∷ []

-- `set.delete(x)`, and `xs.filter((y) => y !== x)` on a list
unfoldable pub delete : String → List String → List String
delete x [] = []
delete x (y ∷ ys) = let rest = delete x ys in if y === x then rest else y ∷ rest

-- `new Set(xs)`
unfoldable pub set_of_from : List String → List String → List String
unfolding add
set_of_from set [] = set
set_of_from set (x ∷ xs) = set_of_from (add x set) xs

unfoldable pub set_of : List String → List String
unfolding set_of_from
set_of xs = set_of_from [] xs

-- No text stands twice.
abbrev pub IsSetLike : List String → Type 0
IsSetLike [] = Unit
IsSetLike (x ∷ xs) = (has x xs ≡ false) × IsSetLike xs

pub has-append : (x : String) (xs ys : List String) → has x (xs ++ ys) ≡ (has x xs || has x ys)
unfolding has
has-append x [] ys = refl
has-append x (y ∷ xs) ys = ground (arith, has-append x xs ys)

pub has-delete :
    (x y : String) (xs : List String) → has x (delete y xs) ≡ (not (y === x) && has x xs)
unfolding has delete
has-delete x y [] = ground arith
has-delete x y (z ∷ xs) = ground (arith, has-delete x y xs, eq_iff y x, eq_iff z x, eq_iff z y)

pub has-add : (x y : String) (xs : List String) → has x (add y xs) ≡ (y === x || has x xs)
unfolding add has
has-add x y xs = ground (arith, has-append x xs (y ∷ []), eq_iff y x)

pub has-set_of_from :
    (x : String) (set xs : List String) → has x (set_of_from set xs) ≡ (has x set || has x xs)
unfolding set_of_from has
has-set_of_from x set [] = ground arith
has-set_of_from x set (y ∷ xs) = ground (arith, has-set_of_from x (add y set) xs, has-add x y set)

-- A set made of a list has the list's members.
pub has-set_of : (x : String) (xs : List String) → has x (set_of xs) ≡ has x xs
unfolding set_of has
has-set_of x xs = has-set_of_from x [] xs

pub delete-IsSetLike : (x : String) (xs : List String) → IsSetLike xs → IsSetLike (delete x xs)
unfolding delete
delete-IsSetLike x [] h = tt
delete-IsSetLike x (y ∷ xs) (fresh, h) = ground (arith, delete-IsSetLike x xs h, has-delete y x xs)

append-IsSetLike :
    (x : String) (xs : List String) → has x xs ≡ false → IsSetLike xs → IsSetLike (xs ++ x ∷ [])
unfolding has
append-IsSetLike x [] h k = (refl, tt)
append-IsSetLike x (y ∷ xs) h (fresh, k) =
    ground (arith, append-IsSetLike x xs, has-append y xs (x ∷ []), eq_iff x y, eq_iff y x)

pub add-IsSetLike : (x : String) (xs : List String) → IsSetLike xs → IsSetLike (add x xs)
unfolding add
add-IsSetLike x xs h = ground (arith, append-IsSetLike x xs)

pub set_of_from-IsSetLike : (set xs : List String) → IsSetLike set → IsSetLike (set_of_from set xs)
unfolding set_of_from
set_of_from-IsSetLike set [] h = h
set_of_from-IsSetLike set (x ∷ xs) h = set_of_from-IsSetLike (add x set) xs (add-IsSetLike x set h)

-- A list whose members all stand in another one is contained in it.
pub has-all :
    (x : String) (xs ys : List String)
    → all (λ y. has y ys) xs ≡ true
    → has x xs ≡ true
    → has x ys ≡ true
unfolding has
has-all x [] ys h member = absurd (false≢true member)
has-all x (y ∷ xs) ys h member = elim (Bool-cases (y === x)) [
  | inl same ↦
      let equal : y ≡ x = (eq_iff y x).0 same in subst (λ z. has z ys ≡ true) equal (ground arith)
  | inr other ↦ has-all x xs ys (ground arith) (ground arith)
]

-- Two lists that contain each other have the same members.
pub has_same :
    (x : String) (xs ys : List String)
    → all (λ y. has y ys) xs ≡ true
    → all (λ y. has y xs) ys ≡ true
    → has x xs ≡ has x ys
has_same x xs ys there back = ground (arith, has-all x xs ys there, has-all x ys xs back)
