-- ===== src/Onboarding/View.antt =====
-- frontend/src/components/onboarding/OnboardingOverlay.tsx and OnboardingStep.tsx: what the overlay
-- shows of a step. `first_word` stands for `username.split(" ")[0]`. The padding of the numbers of
-- the label, the corners of the panel and the classes of the colours are left out.
use Prim.Native.String
use etl_nexus.Common.{
  ℕ, ◌+◌, ◌-◌, Bool, true, false, not, ◌&&◌, ◌||◌, ◌==◌, String, List, [], ◌∷◌, Option, none, some,
  if◌then◌else◌, length, ltb, get_elem?, non_empty, truthy,
}
use etl_nexus.Registry.View.{join_texts}
use etl_nexus.Stores.AuthStore.{UserInfo}
use etl_nexus.Stores.NavigationStore.{Tab}
use etl_nexus.Stores.OnboardingStore.{OnboardingState, Direction}
use etl_nexus.Onboarding.Steps.{
  OnboardingStep, PanelPosition, center, right, bottom_left, bottom_right,
}

pub record PanelStyle : Type 0 where
  pub top : String
  pub left : String
  pub transform : String
  pub width : ℕ
  pub max_width : Option String

unfoldable pub get_panel_style : PanelPosition → PanelStyle
get_panel_style center = record {
  top = "50%";
  left = "50%";
  transform = "translate(-50%, -50%)";
  width = 720;
  max_width = some "calc(100vw - 48px)";
}
get_panel_style right = record {
  top = "50%";
  left = "calc(100vw - 480px - 28px)";
  transform = "translate(0%, -50%)";
  width = 460;
  max_width = none;
}
get_panel_style bottom_left = record {
  top = "calc(100vh - 28px)";
  left = "104px";
  transform = "translate(0%, -100%)";
  width = 480;
  max_width = none;
}
get_panel_style bottom_right = record {
  top = "calc(100vh - 28px)";
  left = "calc(100vw - 520px - 28px)";
  transform = "translate(0%, -100%)";
  width = 500;
  max_width = none;
}

-- OnboardingStepContent
pub record StepContent : Type 0 where
  pub label : ℕ × ℕ
  pub admin_mark : Bool
  pub title : String
  pub subtitle : String
  pub badge : Option (String × Option String)
  pub features : List String
  pub final_mark : Bool
  pub slide : Direction

abbrev shown_teams : List String → Option String
shown_teams [] = none
shown_teams (team ∷ teams) =
    let names = join_texts ", " (team ∷ teams) in if non_empty names then some names else none

abbrev badge_of : Option UserInfo → Option (String × Option String)
badge_of none = none
badge_of (some user) = some (user.role, shown_teams user.teams)

abbrev first_name : (String → String) → Option UserInfo → String
first_name first_word none = ""
first_name first_word (some user) = first_word user.username

unfoldable pub step_content :
    (String → String) → Option UserInfo → ℕ → OnboardingState → OnboardingStep → StepContent
unfolding join_texts
step_content first_word user total s step = record {
  label = (s.current_step + 1, total);
  admin_mark = step.admin_only;
  title =
      if step.is_welcome && non_empty (first_name first_word user)
      then String.◌++◌ "Welcome, " (first_name first_word user)
      else step.title;
  subtitle = step.subtitle;
  badge = if step.is_welcome then badge_of user else none;
  features = step.features;
  final_mark = step.is_final;
  slide = s.direction;
}

pub data Backdrop : Type 0 where
  grid clear dimmed : Backdrop

pub data DotMark : Type 0 where
  current passed ahead : DotMark

-- the marks of the dots from `i` on
unfoldable pub dots_from : ℕ → ℕ → List OnboardingStep → List DotMark
dots_from current_step i [] = []
dots_from current_step i (step ∷ steps) =
    (if i == current_step then current else if ltb i current_step then passed else ahead)
    ∷ dots_from current_step (i + 1) steps

pub record OverlayView : Type 0 where
  pub backdrop : Backdrop
  pub section_spotlight : Option String
  pub sidebar_spotlight : Option Tab
  pub connector : Option Tab
  pub shutting_down : Bool
  pub panel : PanelStyle
  pub content : StepContent
  pub dots : List DotMark
  pub skip_shown : Bool
  pub previous_shown : Bool
  pub launches : Bool
  pub controls_enabled : Bool

abbrev is_center : PanelPosition → Bool
is_center center = true
is_center right = false
is_center bottom_left = false
is_center bottom_right = false

abbrev is_centered : OnboardingState → OnboardingStep → Bool
is_centered s step = is_center step.panel_position || s.is_exiting

abbrev has_section_target : OnboardingState → OnboardingStep → Bool
has_section_target s step =
    not (is_centered s step) && (not s.is_exiting && truthy step.section_target)

-- the last button of the bar
abbrev pub last_label : OverlayView → String
last_label view = if view.launches then "Launch Command Center" else "Continue"

module _ (first_word : String → String) (user : Option UserInfo) (steps : List OnboardingStep)
    (s : OnboardingState) where
  unfoldable pub step_view : OnboardingStep → OverlayView
  unfolding get_panel_style step_content dots_from
  step_view step = record {
    backdrop =
        if is_centered s step then grid else if has_section_target s step then clear else dimmed;
    section_spotlight = if has_section_target s step then step.section_target else none;
    sidebar_spotlight = if s.is_exiting then none else step.spotlight_target;
    connector = if is_centered s step then none else step.spotlight_target;
    shutting_down = s.is_exiting;
    panel = if s.is_exiting then get_panel_style center else get_panel_style step.panel_position;
    content = step_content first_word user (length steps) s step;
    dots = dots_from s.current_step 0 steps;
    skip_shown = not (s.current_step == length steps - 1);
    previous_shown = not (s.current_step == 0);
    launches = s.current_step == length steps - 1;
    controls_enabled = not s.is_exiting;
  }

  abbrev pub view_of : Option OnboardingStep → Option OverlayView
  view_of none = none
  view_of (some step) = some (step_view step)

  -- OnboardingOverlay
  unfoldable pub overlay_view : Option OverlayView
  unfolding step_view
  overlay_view = if s.is_active then view_of (get_elem? steps s.current_step) else none
