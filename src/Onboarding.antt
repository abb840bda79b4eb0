-- ===== src/Onboarding.antt =====
-- frontend/src/components/onboarding: the steps of the tour and the overlay that shows them.
pub mod Steps
pub mod Tour
mod View
mod Offers
mod Spotlights
mod Tests
use etl_nexus.Common.{
  ℕ, suc, ◌+◌, ◌-◌, Bool, true, false, not, ◌&&◌, ◌||◌, String, List, Option, none, some,
  if◌then◌else◌, ◌==◌, ltb, is_some, non_empty,
}
use etl_nexus.Stores.LocalStorage.{WebStorage}
use etl_nexus.Stores.OnboardingStore.{
  OnboardingState, start_onboarding, next_step, prev_step, go_to_step, complete_onboarding,
  finalize_exit,
}

pub data Key : Type 0 where
  arrow_right enter arrow_left escape other_key : Key

-- `handleKeyDown`, which listens while the overlay is active
unfoldable pub handle_key_down : ℕ → Key → OnboardingState → OnboardingState
unfolding next_step prev_step complete_onboarding
handle_key_down total key s =
    let ahead = if s.current_step == total - 1 then complete_onboarding s else next_step total s in
    if not s.is_active || s.is_exiting then s else elim key [
      | arrow_right ↦ ahead
      | enter ↦ ahead
      | arrow_left ↦ prev_step s
      | escape ↦ complete_onboarding s
      | other_key ↦ s
    ]

-- The controls of the navigation bar; a dot names its step.
pub data Control : Type 0 where
  dot : ℕ → Control
  skip previous continue launch : Control

-- `if (!isActive || !step) return null`
abbrev pub is_shown : ℕ → OnboardingState → Bool
is_shown total s = s.is_active && ltb s.current_step total

abbrev pub control_shown : ℕ → Control → OnboardingState → Bool
control_shown total (dot i) s = ltb i total
control_shown total skip s = not (s.current_step == total - 1)
control_shown total previous s = not (s.current_step == 0)
control_shown total continue s = not (s.current_step == total - 1)
control_shown total launch s = s.current_step == total - 1

-- The control is rendered and enabled.
unfoldable pub is_enabled : ℕ → Control → OnboardingState → Bool
is_enabled total control s = is_shown total s && not s.is_exiting && control_shown total control s

unfoldable pub click : ℕ → Control → OnboardingState → OnboardingState
unfolding next_step prev_step go_to_step complete_onboarding is_enabled
click total control s =
    if is_enabled total control s
    then elim control [
      | dot i ↦ go_to_step i s
      | skip ↦ complete_onboarding s
      | previous ↦ prev_step s
      | continue ↦ next_step total s
      | launch ↦ complete_onboarding s
    ]
    else s

-- the effect that starts the tour at the first visit; the argument says whether there is a user
unfoldable pub auto_start : Bool → OnboardingState → OnboardingState
unfolding start_onboarding
auto_start has_user s =
    if has_user && (not s.has_completed && not s.is_active) then start_onboarding s else s

module _ (ws : WebStorage) where
  open ws use {Storage}

  -- `handleShutdownEnd`; the argument says whether the animation is "onboarding-shutdown". The
  -- panel has that class, and so that animation, only while the tour is exiting.
  unfoldable pub handle_shutdown_end :
      ℕ → Bool → OnboardingState → Storage → OnboardingState × Storage
  unfolding finalize_exit
  handle_shutdown_end total is_shutdown s store =
      if is_shutdown && (is_shown total s && s.is_exiting)
      then finalize_exit ws s store
      else (s, store)
