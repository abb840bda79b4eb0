-- ===== src/Stores/FavoritesStore.antt =====
-- frontend/src/stores/favorites-store.ts. `JSON.stringify` and `JSON.parse` are parameters; `parse`
-- gives nothing where it throws.
mod Kept
use etl_nexus.Common.{
  Bool, not, String, List, [], ◌∷◌, ◌++◌, Option, none, some, if◌then◌else◌, non_empty, has, delete,
}
use etl_nexus.Stores.LocalStorage.{WebStorage}

abbrev pub storage_key : String
storage_key = "etlnexus:favorites"

abbrev or_empty : Option (List String) → List String
or_empty none = []
or_empty (some ids) = ids

-- what `getItem` gives, an exception included
unfoldable pub stored_favorites :
    (String → Option (List String)) → Option (Option String) → List String
stored_favorites parse none = []
stored_favorites parse (some none) = []
stored_favorites parse (some (some raw)) = if non_empty raw then or_empty (parse raw) else []

unfoldable pub is_favorite : String → List String → Bool
unfolding has
is_favorite id favorite_ids = has id favorite_ids

abbrev pub after_write {ℓ} : {A : Type ℓ} → Option A → A → A
after_write none before = before
after_write (some after) before = after

module _ (ws : WebStorage) where
  open ws use {Storage, get_item}

  unfoldable pub load_favorites : (String → Option (List String)) → Storage → List String
  unfolding stored_favorites
  load_favorites parse storage = stored_favorites parse (get_item storage_key storage)

module _ (ws : WebStorage) (stringify : List String → String) where
  open ws use {Storage, set_item}

  unfoldable pub save_favorites : List String → Storage → Storage
  save_favorites ids storage = after_write (set_item storage_key (stringify ids) storage) storage

  -- the ids of the store, and the storage
  unfoldable pub toggle_favorite : String → List String → Storage → List String × Storage
  unfolding has delete save_favorites
  toggle_favorite id current storage =
      let next = if has id current then delete id current else current ++ id ∷ [] in
      (next, save_favorites next storage)
