-- ===== src/Stores/LocalStorage.antt =====
-- `localStorage`: each call may throw, which the stores catch. The browser's storage is a
-- parameter with the laws of the Web Storage interface that the stores rely on.
use etl_nexus.Common.{
  String, List, [], ◌∷◌, Option, none, some, ◌≡◌, arith, ◌===◌, if◌then◌else◌, subst,
}
use mathlib.Core.Option.{some-injective}

pub record WebStorage : Type 1 where
  pub Storage : Type 0
  -- `none` stands for an exception, `some none` for a missing key
  pub get_item : String → Storage → Option (Option String)
  pub set_item : String → String → Storage → Option Storage
  pub remove_item : String → Storage → Option Storage
  pub get-set :
      (k j v : String) (s t : Storage)
      → set_item k v s ≡ some t
      → get_item j t ≡ (if k === j then some (some v) else get_item j s)
  pub get-remove :
      (k j : String) (s t : Storage)
      → remove_item k s ≡ some t
      → get_item j t ≡ (if k === j then some none else get_item j s)

-- A storage in memory that never throws shows that the laws can be met.
pub lookup : String → List (String × Option String) → Option String
lookup k [] = none
lookup k ((j, v) ∷ entries) = if j === k then v else lookup k entries

pub lookup-put :
    (k j : String) (v : Option String) (s t : List (String × Option String))
    → some ((k, v) ∷ s) ≡ some t
    → some (lookup j t) ≡ (if k === j then some v else some (lookup j s))
unfolding lookup
lookup-put k j v s t e =
    subst (λ u. some (lookup j u) ≡ (if k === j then some v else some (lookup j s)))
      (some-injective ((k, v) ∷ s) t e) (ground arith)

abbrev pub memory : WebStorage
memory = record {
  Storage = List (String × Option String);
  get_item = λ k s. some (lookup k s);
  set_item = λ k v s. some ((k, some v) ∷ s);
  remove_item = λ k s. some ((k, none) ∷ s);
  get-set = λ k j v. lookup-put k j (some v);
  get-remove = λ k j. lookup-put k j none;
}
