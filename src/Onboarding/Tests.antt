-- ===== src/Onboarding/Tests.antt =====
-- The tour at some states of its store.
use etl_nexus.Common.{◌-◌, true, false, refl, arith, []}
use etl_nexus.Stores.LocalStorage.{memory}
use etl_nexus.Stores.OnboardingStore.{OnboardingState, initial_onboarding, forward}
use etl_nexus.Onboarding.{arrow_right, handle_shutdown_end, auto_start, dot, click}
use etl_nexus.Onboarding.Tour.{
  mounted, clicked, at_start, and_step, IsTour, TourFrom-IsTour, HasEnded, press, tour_ends,
}

abbrev at_tables : OnboardingState
at_tables = record {
  is_active = true;
  is_exiting = false;
  current_step = 2;
  has_completed = false;
  direction = forward;
}

TourFrom-IsTour_example :
    IsTour memory 5 (click 5 (dot 4) (auto_start true (initial_onboarding memory [])))
TourFrom-IsTour_example =
    TourFrom-IsTour memory 5 [] (omega arith)
      (and_step (and_step at_start (mounted true _ [])) (clicked (dot 4) _ []))

tour_ends_example :
    HasEnded memory 5 []
      (handle_shutdown_end memory 5 true (press memory 5 arrow_right (5 - 2) at_tables) [])
tour_ends_example = tour_ends memory 5 at_tables [] refl refl (omega arith)
