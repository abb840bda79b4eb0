-- ===== src/Layout.antt =====
-- frontend/src/components/layout/Sidebar.tsx and NavIcon.tsx, the content of frontend/src/App.tsx,
-- and frontend/src/components/auth/LoginPage.tsx: what stands around the parts of the application.
mod Shown
use etl_nexus.Common.{
  Bool, true, false, not, String, List, [], ◌∷◌, map, Option, none, some, if◌then◌else◌, non_empty,
}
use etl_nexus.Registry.View.{join_texts}
use etl_nexus.Stores.AuthStore.{AuthState, UserInfo, logout}
use etl_nexus.Stores.NavigationStore.{Tab, data_products, tables, ai, Navigation, set_active_tab}
use etl_nexus.Stores.ThemeStore.{Theme, dark, light}

-- NavIcon with its tab
pub record NavItem : Type 0 where
  pub tab : Tab
  pub active : Bool
  pub tooltip : String

abbrev pub is_tab : Tab → Tab → Bool
is_tab data_products data_products = true
is_tab tables tables = true
is_tab ai ai = true
is_tab _ _ = false

unfoldable pub nav_items : Tab → List NavItem
nav_items active_tab =
    record {
      tab = data_products;
      active = is_tab active_tab data_products;
      tooltip = "Data Products";
    }
    ∷ record { tab = tables; active = is_tab active_tab tables; tooltip = "Tables" }
    ∷ record { tab = ai; active = is_tab active_tab ai; tooltip = "AI Architect" }
    ∷ []

unfoldable pub click_nav_item : NavItem → Navigation → Navigation
unfolding set_active_tab
click_nav_item item nav = set_active_tab item.tab nav

-- `user.full_name || user.username`
abbrev pub shown_name : UserInfo → String
shown_name user = elim user.full_name [
  | none ↦ user.username
  | some name ↦ if non_empty name then name else user.username
]

abbrev team_names : List String → String
team_names [] = "No team"
team_names (team ∷ teams) = join_texts ", " (team ∷ teams)

pub record UserView : Type 0 where
  pub name : String
  pub email : String
  pub role : String
  pub teams : String
  pub logout_offered : Bool

abbrev user_view : Bool → Option UserInfo → Option UserView
user_view sso_enabled none = none
user_view sso_enabled (some user) = some (record {
  name = shown_name user;
  email = user.email;
  role = user.role;
  teams = team_names user.teams;
  logout_offered = sso_enabled;
})

pub record SidebarView : Type 0 where
  pub items : List NavItem
  pub theme_label : String
  pub user : Option UserView

abbrev theme_label_of : Theme → String
theme_label_of dark = "Dark mode"
theme_label_of light = "Light mode"

unfoldable pub sidebar_view : Tab → AuthState → Theme → SidebarView
unfolding nav_items join_texts
sidebar_view active_tab auth theme = record {
  items = nav_items active_tab;
  theme_label = theme_label_of theme;
  user = user_view auth.sso_enabled auth.user;
}

-- `handleLogout` of SsoLogoutButton: the store, and whether the provider is asked to sign out
unfoldable pub handle_logout : AuthState → AuthState × Bool
unfolding logout
handle_logout auth = (logout auth, true)

-- the parts of the page, at a tab
pub data PagePart : Type 0 where
  registry workspace tables_view architect_view : PagePart

unfoldable pub app_content : Tab → List PagePart
app_content data_products = registry ∷ workspace ∷ []
app_content tables = tables_view ∷ []
app_content ai = architect_view ∷ []

-- LoginPage
pub record LoginView : Type 0 where
  pub title : String
  pub enabled : Bool
  pub label : String
  pub error : Option String
  pub made_by : Option String

abbrev shown_owner : String → Option String
shown_owner owner = if non_empty owner then some owner else none

unfoldable pub login_view : (app_name app_owner : String) → Bool → Option String → LoginView
login_view app_name app_owner is_loading error = record {
  title = app_name;
  enabled = not is_loading;
  label = if is_loading then "Redirecting..." else "Sign in with SSO";
  error = error;
  made_by = shown_owner app_owner;
}
