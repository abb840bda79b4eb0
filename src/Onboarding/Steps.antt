-- ===== src/Onboarding/Steps.antt =====
-- frontend/src/components/onboarding/onboarding-steps.tsx. The texts of the descriptions and the
-- CSS classes and icons of a step are left out.
use etl_nexus.Common.{
  ℕ, Bool, true, false, not, ◌||◌, String, List, [], ◌∷◌, Option, none, some, if◌then◌else◌, filter,
  length, get_elem?, ◌≡◌, refl, arith, sym, subst, zero, suc,
}
use etl_nexus.Stores.NavigationStore.{Tab, data_products, tables, ai, Navigation, set_active_tab}
use etl_nexus.Stores.OnboardingStore.{OnboardingState}

pub data PanelPosition : Type 0 where
  center right bottom_left bottom_right : PanelPosition

pub record OnboardingStep : Type 0 where
  pub id : String
  pub title : String
  pub subtitle : String
  pub spotlight_target : Option Tab
  pub section_target : Option String
  pub navigate_to : Option Tab
  pub panel_position : PanelPosition
  pub admin_only : Bool
  pub features : List String
  pub is_welcome : Bool
  pub is_final : Bool

abbrev welcome : OnboardingStep
welcome = record {
  id = "welcome";
  title = "Welcome to ETL Nexus";
  subtitle = "INITIALIZING COMMAND CENTER";
  spotlight_target = none;
  section_target = none;
  navigate_to = none;
  panel_position = center;
  admin_only = false;
  features =
      "Catalog of published data products" ∷ "Auto-fetched schema + consume snippet"
      ∷ "Team-based access and editing" ∷ "AI-powered architecture analysis" ∷ [];
  is_welcome = true;
  is_final = false;
}

abbrev data_products_step : OnboardingStep
data_products_step = record {
  id = "data-products";
  title = "Data Products";
  subtitle = "MODULE: DATA_PRODUCTS";
  spotlight_target = some data_products;
  section_target = some "data-products-registry";
  navigate_to = some data_products;
  panel_position = right;
  admin_only = false;
  features =
      "Team-grouped product registry" ∷ "Filter by team + schedule"
      ∷ "New Data Product: name, description, documentation, tables"
      ∷ "A tab per table (schema + consume) + product read_by_tag snippet" ∷ [];
  is_welcome = false;
  is_final = false;
}

abbrev tables_step : OnboardingStep
tables_step = record {
  id = "tables";
  title = "Tables";
  subtitle = "MODULE: CATALOG_TABLES";
  spotlight_target = some tables;
  section_target = some "tables-view";
  navigate_to = some tables;
  panel_position = bottom_right;
  admin_only = false;
  features =
      "All catalog tables from Spark Connect" ∷ "Filter by team + name"
      ∷ "Per-table schema + consume snippet" ∷ [];
  is_welcome = false;
  is_final = false;
}

abbrev ai_step : OnboardingStep
ai_step = record {
  id = "ai";
  title = "AI Architect Terminal";
  subtitle = "MODULE: AI_TERMINAL";
  spotlight_target = some ai;
  section_target = some "ai-terminal";
  navigate_to = some ai;
  panel_position = bottom_right;
  admin_only = false;
  features =
      "Natural language queries against the catalog" ∷ "Join path recommendations"
      ∷ "Full schema context" ∷ [];
  is_welcome = false;
  is_final = false;
}

abbrev ready : OnboardingStep
ready = record {
  id = "ready";
  title = "Mission Ready";
  subtitle = "BRIEFING COMPLETE";
  spotlight_target = none;
  section_target = none;
  navigate_to = some data_products;
  panel_position = center;
  admin_only = false;
  features = [];
  is_welcome = false;
  is_final = true;
}

abbrev pub all_steps : List OnboardingStep
all_steps = welcome ∷ data_products_step ∷ tables_step ∷ ai_step ∷ ready ∷ []

unfoldable pub get_onboarding_steps : Bool → List OnboardingStep
get_onboarding_steps is_user_admin = filter (λ step. not step.admin_only || is_user_admin) all_steps

-- the tab of a step, if there is such a step and it has one
abbrev target_of : Option OnboardingStep → Option Tab
target_of none = none
target_of (some step) = step.navigate_to

-- OnboardingOverlay.tsx: the effect that goes to the tab of the current step
unfoldable pub navigate_for_step : Bool → OnboardingState → Navigation → Navigation
navigate_for_step admin s nav =
    if not s.is_active || s.is_exiting
    then nav
    else elim (target_of (get_elem? (get_onboarding_steps admin) s.current_step)) [
      | none ↦ nav
      | some tab ↦ set_active_tab tab nav
    ]

-- The highlighted section of the page belongs to this tab.
abbrev pub spotlight_tab : Option OnboardingStep → Option Tab
spotlight_tab none = none
spotlight_tab (some step) = step.spotlight_target

-- A step that highlights a tab goes to that tab.
all_steps-goes :
    (i : ℕ) (tab : Tab)
    → spotlight_tab (get_elem? all_steps i) ≡ some tab
    → target_of (get_elem? all_steps i) ≡ some tab
all_steps-goes zero tab e = absurd (cc)
all_steps-goes (suc zero) tab e = e
all_steps-goes (suc (suc zero)) tab e = e
all_steps-goes (suc (suc (suc zero))) tab e = e
all_steps-goes (suc (suc (suc (suc zero)))) tab e = absurd (cc)
all_steps-goes (suc (suc (suc (suc (suc i))))) tab e = absurd (cc)

-- No step is for administrators only.
get_onboarding_steps-all : (admin : Bool) → get_onboarding_steps admin ≡ all_steps
unfolding get_onboarding_steps
get_onboarding_steps-all true = refl
get_onboarding_steps-all false = refl

-- In an active tour that is not exiting, a step that highlights a tab in the side bar is shown at
-- that tab, for administrators and for others alike.
pub spotlight_is_active :
    (admin : Bool) (s : OnboardingState) (nav : Navigation) (tab : Tab)
    → s.is_active ≡ true
    → s.is_exiting ≡ false
    → spotlight_tab (get_elem? (get_onboarding_steps admin) s.current_step) ≡ some tab
    → (navigate_for_step admin s nav).active_tab ≡ tab
unfolding navigate_for_step set_active_tab
spotlight_is_active admin s nav tab active running target =
    let goes = all_steps-goes s.current_step tab (
      subst (λ steps. spotlight_tab (get_elem? steps s.current_step) ≡ some tab)
        (get_onboarding_steps-all admin) target) in
    let here : target_of (get_elem? (get_onboarding_steps admin) s.current_step) ≡ some tab =
      subst (λ steps. target_of (get_elem? steps s.current_step) ≡ some tab)
        (sym (get_onboarding_steps-all admin)) goes in
    ground arith

-- Both kinds of users see the five steps.
get_onboarding_steps-length : (admin : Bool) → length (get_onboarding_steps admin) ≡ 5
unfolding get_onboarding_steps
get_onboarding_steps-length true = refl
get_onboarding_steps-length false = refl
