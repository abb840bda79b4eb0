-- ===== src/Stores/ThemeStore/Applied.antt =====
-- The store, the document and the storage show the same theme.
use etl_nexus.Common.{none, some, ◌≡◌, refl, arith, eq_refl, inl, inr, Option-cases}
use etl_nexus.Stores.LocalStorage.{WebStorage}
use etl_nexus.Stores.ThemeStore.{
  Theme, dark, light, theme_text, storage_key, stored_theme, ThemeState, get_initial_theme,
  set_theme, load_theme, toggle_theme,
}

module _ (ws : WebStorage) where
  open ws use {Storage, get_item, set_item}

  pub data ThemeStep : ThemeState ws → ThemeState ws → Type 0 where
    set_to :
        (theme : Theme) (page : ThemeState ws) → ThemeStep page (set_theme ws theme page.storage)
    toggled : (page : ThemeState ws) → ThemeStep page (toggle_theme ws page)

  -- what happens on a page that is loaded with a storage
  pub data Themes (storage : Storage) : ThemeState ws → Type 0 where
    loaded : Themes storage (load_theme ws storage)
    and_then : {p q : ThemeState ws} → Themes storage p → ThemeStep p q → Themes storage q

  stored_theme-theme_text : (theme : Theme) → stored_theme (some (some (theme_text theme))) ≡ theme
  unfolding stored_theme theme_text
  stored_theme-theme_text dark = refl
  stored_theme-theme_text light = refl

  -- If the storage accepts the write of a theme that is chosen, the next page starts with the theme.
  pub get_initial_theme-set_theme :
      (theme : Theme) (storage : Storage) (after : Storage)
      → set_item storage_key (theme_text theme) storage ≡ some after
      → get_initial_theme ws (set_theme ws theme storage).storage ≡ theme
  unfolding get_initial_theme set_theme
  get_initial_theme-set_theme theme storage after e = ground (
    arith,
    ws.get-set storage_key storage_key (theme_text theme) storage after e,
    eq_refl storage_key,
    stored_theme-theme_text theme,
  )

  failed_write :
      (theme : Theme) (storage : Storage)
      → set_item storage_key (theme_text theme) storage ≡ none
      → (set_theme ws theme storage).storage ≡ storage
  unfolding set_theme
  failed_write theme storage e = ground arith

  get_initial_theme_again :
      (theme : Theme) (storage : Storage)
      → get_initial_theme ws storage ≡ theme
      → get_initial_theme ws (set_theme ws theme storage).storage ≡ theme
  get_initial_theme_again theme storage now =
      elim (Option-cases (set_item storage_key (theme_text theme) storage)) [
        | inl failed ↦ rw (failed_write theme storage failed) now
        | inr (after, e) ↦ get_initial_theme-set_theme theme storage after e
      ]

  applied :
      (theme : Theme) (storage : Storage)
      → (set_theme ws theme storage).data_theme ≡ theme_text (set_theme ws theme storage).theme
  unfolding set_theme
  applied theme storage = refl

  load_theme-IsApplied :
      (storage : Storage)
      → (load_theme ws storage).data_theme ≡ theme_text (load_theme ws storage).theme
  unfolding load_theme
  load_theme-IsApplied storage =
      rw (get_initial_theme_again (get_initial_theme ws storage) storage refl) (applied _ storage)

  toggle_theme-IsApplied :
      (page : ThemeState ws)
      → (toggle_theme ws page).data_theme ≡ theme_text (toggle_theme ws page).theme
  unfolding toggle_theme
  toggle_theme-IsApplied page = applied _ page.storage

  ThemeStep-IsApplied : {p q : ThemeState ws} → ThemeStep p q → q.data_theme ≡ theme_text q.theme
  ThemeStep-IsApplied (set_to theme page) = applied theme page.storage
  ThemeStep-IsApplied (toggled page) = toggle_theme-IsApplied page

  -- Whatever is chosen after a page is loaded, the document shows the theme of the store.
  pub Themes-IsApplied :
      (storage : Storage) {page : ThemeState ws}
      → Themes storage page
      → page.data_theme ≡ theme_text page.theme
  Themes-IsApplied storage loaded = load_theme-IsApplied storage
  Themes-IsApplied storage (and_then before step) = ThemeStep-IsApplied step
