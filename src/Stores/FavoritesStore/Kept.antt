-- ===== src/Stores/FavoritesStore/Kept.antt =====
-- The favorites of the store, and those of the next page.
use etl_nexus.Common.{
  true, not, String, List, [], ◌∷◌, Option, some, if◌then◌else◌, ◌===◌, non_empty, ◌≡◌, arith,
  eq_refl, eq_iff, has-append, has-delete,
}
use etl_nexus.Stores.LocalStorage.{WebStorage}
use etl_nexus.Stores.FavoritesStore.{
  storage_key, is_favorite, load_favorites, save_favorites, toggle_favorite,
}

module _ (ws : WebStorage) (stringify : List String → String) where
  open ws use {Storage, set_item}

  -- A toggle turns its product into a favorite or back, and leaves every other product as it is.
  pub toggle_favorite_exact :
      (id other : String) (current : List String) (storage : Storage)
      → is_favorite other (toggle_favorite ws stringify id current storage).0
        ≡ (if id === other then not (is_favorite other current) else is_favorite other current)
  unfolding toggle_favorite is_favorite
  toggle_favorite_exact id other current storage = ground (
    arith,
    has-append other current (id ∷ []),
    has-delete other id current,
    eq_iff id other,
    eq_iff other id,
  )

  load_favorites-save_favorites :
      (parse : String → Option (List String)) (ids : List String) (storage after : Storage)
      → set_item storage_key (stringify ids) storage ≡ some after
      → non_empty (stringify ids) ≡ true
      → parse (stringify ids) ≡ some ids
      → load_favorites ws parse (save_favorites ws stringify ids storage) ≡ ids
  unfolding load_favorites save_favorites
  load_favorites-save_favorites parse ids storage after write some_text read = ground (
    arith,
    ws.get-set storage_key storage_key (stringify ids) storage after write,
    eq_refl storage_key,
  )

  -- If the storage accepts the write after a toggle and the text that is written is read back as
  -- the list that it was made of, the next page starts with the favorites of the store.
  pub load_favorites-toggle_favorite :
      (parse : String → Option (List String)) (id : String) (current : List String)
      (storage after : Storage)
      → set_item storage_key (stringify (toggle_favorite ws stringify id current storage).0) storage
        ≡ some after
      → non_empty (stringify (toggle_favorite ws stringify id current storage).0) ≡ true
      → parse (stringify (toggle_favorite ws stringify id current storage).0)
        ≡ some (toggle_favorite ws stringify id current storage).0
      → load_favorites ws parse (toggle_favorite ws stringify id current storage).1
        ≡ (toggle_favorite ws stringify id current storage).0
  unfolding toggle_favorite
  load_favorites-toggle_favorite parse id current storage after write some_text read =
      load_favorites-save_favorites parse _ storage after write some_text read
