-- ===== src/Onboarding/Offers.antt =====
-- Which controls the overlay offers.
use etl_nexus.Common.{
  ℕ, zero, suc, ◌+◌, Bool, false, not, ◌&&◌, String, List, [], ◌∷◌, Option, none, some, length, ltb,
  get_elem?, is_some, ◌≡◌, refl, arith,
}
use etl_nexus.Stores.AuthStore.{UserInfo}
use etl_nexus.Stores.OnboardingStore.{OnboardingState}
use etl_nexus.Onboarding.{Control, dot, skip, previous, continue, launch, is_enabled, control_shown}
use etl_nexus.Onboarding.Steps.{OnboardingStep}
use etl_nexus.Onboarding.View.{OverlayView, dots_from, view_of, step_view, overlay_view}

-- the control is among those of the view, and enabled
abbrev has_control : Control → OverlayView → Bool
has_control (dot i) view = ltb i (length view.dots)
has_control skip view = view.skip_shown
has_control previous view = view.previous_shown
has_control continue view = not view.launches
has_control launch view = view.launches

abbrev pub offers : Control → Option OverlayView → Bool
offers control none = false
offers control (some view) = has_control control view && view.controls_enabled

dots_from-length :
    (current_step i : ℕ) (steps : List OnboardingStep)
    → length (dots_from current_step i steps) ≡ length steps
unfolding dots_from
dots_from-length current_step i [] = refl
dots_from-length current_step i (step ∷ steps) =
    ground (arith, dots_from-length current_step (i + 1) steps)

get_elem?-is_some :
    (steps : List OnboardingStep) (i : ℕ) → is_some (get_elem? steps i) ≡ ltb i (length steps)
get_elem?-is_some [] i = ground arith
get_elem?-is_some (step ∷ steps) zero = ground arith
get_elem?-is_some (step ∷ steps) (suc i) = ground (arith, get_elem?-is_some steps i)

module _ (first_word : String → String) (user : Option UserInfo) (steps : List OnboardingStep)
    (s : OnboardingState) where
  has_control-view :
      (step : OnboardingStep) (control : Control)
      → has_control control (step_view first_word user steps s step) && not s.is_exiting
        ≡ not s.is_exiting && control_shown (length steps) control s
  unfolding step_view
  has_control-view step (dot i) = ground (arith, dots_from-length s.current_step 0 steps)
  has_control-view step skip = ground arith
  has_control-view step previous = ground arith
  has_control-view step continue = ground arith
  has_control-view step launch = ground arith

  view_of-offers :
      (step : Option OnboardingStep) (control : Control)
      → offers control (view_of first_word user steps s step)
        ≡ is_some step && not s.is_exiting && control_shown (length steps) control s
  unfolding step_view
  view_of-offers none control = refl
  view_of-offers (some step) control = has_control-view step control

  -- Whatever the steps and the state of the tour, the overlay shows a control that can be pressed
  -- exactly where pressing it is handled: at no other step, not while the tour exits, and not while
  -- the overlay is closed.
  pub overlay_view-offers :
      (control : Control)
      → offers control (overlay_view first_word user steps s) ≡ is_enabled (length steps) control s
  unfolding overlay_view is_enabled
  overlay_view-offers control =
      let shown = get_elem?-is_some steps s.current_step in
      let offered = view_of-offers (get_elem? steps s.current_step) control in ground arith
