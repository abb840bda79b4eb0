-- ===== src/Stores/ThemeStore.antt =====
-- frontend/src/stores/theme-store.ts, with the attribute `data-theme` of the document.
mod Applied
use etl_nexus.Common.{String, Option, none, some, if◌then◌else◌, ◌===◌}
use etl_nexus.Stores.LocalStorage.{WebStorage}

pub data Theme : Type 0 where
  dark light : Theme

-- the text of a theme
unfoldable pub theme_text : Theme → String
theme_text dark = "dark"
theme_text light = "light"

abbrev pub storage_key : String
storage_key = "etlnexus:theme"

-- what `getItem` gives, an exception included
unfoldable pub stored_theme : Option (Option String) → Theme
stored_theme none = dark
stored_theme (some none) = dark
stored_theme (some (some stored)) =
    if stored === "light" then light else if stored === "dark" then dark else dark

-- the storage after a write that may throw
abbrev pub written {ℓ} : {A : Type ℓ} → Option A → A → A
written none before = before
written (some after) before = after

module _ (ws : WebStorage) where
  open ws use {Storage, get_item, set_item}

  -- the store, the attribute of the document and the storage of the browser
  pub record ThemeState : Type 0 where
    pub theme : Theme
    pub data_theme : String
    pub storage : ws.Storage

  unfoldable pub get_initial_theme : Storage → Theme
  unfolding stored_theme
  get_initial_theme storage = stored_theme (get_item storage_key storage)

  -- `applyTheme`, then `set`
  unfoldable pub set_theme : Theme → Storage → ThemeState
  unfolding theme_text
  set_theme theme storage = record {
    theme = theme;
    data_theme = theme_text theme;
    storage = written (set_item storage_key (theme_text theme) storage) storage;
  }

  -- the module at the load of a page: `applyTheme(getInitialTheme())`, and then the store, which
  -- reads the theme again
  unfoldable pub load_theme : Storage → ThemeState
  unfolding set_theme get_initial_theme
  load_theme storage =
      let page = set_theme (get_initial_theme storage) storage in
      record page { theme = get_initial_theme page.storage }

  abbrev other_theme : Theme → Theme
  other_theme dark = light
  other_theme light = dark

  unfoldable pub toggle_theme : ThemeState → ThemeState
  unfolding set_theme
  toggle_theme page = set_theme (other_theme page.theme) page.storage
