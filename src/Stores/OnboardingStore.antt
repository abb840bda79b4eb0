-- ===== src/Stores/OnboardingStore.antt =====
-- frontend/src/stores/onboarding-store.ts
use etl_nexus.Common.{
  ℕ, ◌+◌, ◌-◌, Bool, true, false, String, Option, none, some, if◌then◌else◌, leb, ltb, ◌===◌,
}
use etl_nexus.Stores.LocalStorage.{WebStorage}

abbrev pub storage_key_completed : String
storage_key_completed = "etlnexus:onboarding:completed"

abbrev pub storage_key_version : String
storage_key_version = "etlnexus:onboarding:version"

-- `String(ONBOARDING_VERSION)`
abbrev pub onboarding_version : String
onboarding_version = "1"

pub data Direction : Type 0 where
  forward backward : Direction

pub record OnboardingState : Type 0 where
  pub is_active : Bool
  pub is_exiting : Bool
  pub current_step : ℕ
  pub has_completed : Bool
  pub direction : Direction

module _ (ws : WebStorage) where
  open ws use {Storage, get_item, set_item, remove_item}

  abbrev is_current : Option (Option String) → Bool
  is_current none = false
  is_current (some none) = false
  is_current (some (some version)) = version === onboarding_version

  -- an exception counts as not completed
  unfoldable pub read_completed : Storage → Bool
  read_completed store = is_current (get_item storage_key_version store)

  -- an exception ends the block, and what was written before it stays
  abbrev and_then : Option Storage → (Storage → Option Storage) → Storage → Storage
  and_then none next store = store
  and_then (some written) next store = elim (next written) [ none ↦ written | some last ↦ last ]

  unfoldable pub persist_completed : Storage → Storage
  persist_completed store =
      and_then (set_item storage_key_completed "true" store)
        (set_item storage_key_version onboarding_version) store

  unfoldable pub clear_completed : Storage → Storage
  clear_completed store =
      and_then (remove_item storage_key_completed store) (remove_item storage_key_version) store

  -- the store as it is created
  unfoldable pub initial_onboarding : Storage → OnboardingState
  unfolding read_completed
  initial_onboarding store = record {
    is_active = false;
    is_exiting = false;
    current_step = 0;
    has_completed = read_completed store;
    direction = forward;
  }

  unfoldable pub finalize_exit : OnboardingState → Storage → OnboardingState × Storage
  unfolding persist_completed
  finalize_exit s store = (
    record s { is_active = false; is_exiting = false; has_completed = true },
    persist_completed store,
  )

  unfoldable pub reset_onboarding : OnboardingState → Storage → OnboardingState × Storage
  unfolding clear_completed
  reset_onboarding s store = (
    record {
      is_active = false;
      is_exiting = false;
      current_step = 0;
      has_completed = false;
      direction = forward;
    },
    clear_completed store,
  )

unfoldable pub start_onboarding : OnboardingState → OnboardingState
start_onboarding s = record s {
  is_active = true;
  is_exiting = false;
  current_step = 0;
  direction = forward;
}

-- With no step at all `totalSteps - 1` is -1 in the source and 0 here; the test holds either way.
unfoldable pub next_step : ℕ → OnboardingState → OnboardingState
next_step total_steps s =
    if leb (total_steps - 1) s.current_step
    then record s { is_exiting = true; direction = forward }
    else record s { current_step = s.current_step + 1; direction = forward }

-- `Math.max(0, state.currentStep - 1)` is the truncated difference
unfoldable pub prev_step : OnboardingState → OnboardingState
prev_step s = record s { current_step = s.current_step - 1; direction = backward }

unfoldable pub go_to_step : ℕ → OnboardingState → OnboardingState
go_to_step step s = record s {
  current_step = step;
  direction = if ltb s.current_step step then forward else backward;
}

unfoldable pub begin_exit : OnboardingState → OnboardingState
begin_exit s = record s { is_exiting = true }

unfoldable pub complete_onboarding : OnboardingState → OnboardingState
complete_onboarding s = record s { is_exiting = true }
