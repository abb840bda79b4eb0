-- ===== src/Onboarding/Tour.antt =====
-- The tour from the first render of the overlay to its end.
use etl_nexus.Common.{
  ℕ, zero, suc, ◌+◌, ◌-◌, ◌<◌, Bool, true, false, some, ◌≡◌, refl, arith, eq_refl,
}
use etl_nexus.Stores.LocalStorage.{WebStorage}
use etl_nexus.Stores.OnboardingStore.{
  OnboardingState, initial_onboarding, read_completed, persist_completed, start_onboarding,
  storage_key_completed, storage_key_version, onboarding_version,
}
use etl_nexus.Onboarding.{
  Key, arrow_right, enter, arrow_left, escape, other_key, handle_key_down, Control, click,
  auto_start, handle_shutdown_end, dot, skip, previous, continue, launch,
}

module _ (ws : WebStorage) (total : ℕ) where
  open ws use {Storage}

  -- The store of the tour with the storage of the browser.
  abbrev World : Type 0
  World = OnboardingState × Storage

  -- What the user, the effects and the end of an animation may do to the tour.
  pub data TourStep : OnboardingState × Storage → OnboardingState × Storage → Type 0 where
    pressed :
        (key : Key) (s : OnboardingState) (store : Storage)
        → TourStep (s, store) (handle_key_down total key s, store)
    clicked :
        (control : Control) (s : OnboardingState) (store : Storage)
        → TourStep (s, store) (click total control s, store)
    mounted :
        (has_user : Bool) (s : OnboardingState) (store : Storage)
        → TourStep (s, store) (auto_start has_user s, store)
    -- "Restart tour" in the side bar
    restarted :
        (s : OnboardingState) (store : Storage) → TourStep (s, store) (start_onboarding s, store)
    animated :
        (is_shutdown : Bool) (s : OnboardingState) (store : Storage)
        → TourStep (s, store) (handle_shutdown_end ws total is_shutdown s store)

  pub data TourFrom (w : OnboardingState × Storage) : OnboardingState × Storage → Type 0 where
    at_start : TourFrom w w
    and_step : {v u : OnboardingState × Storage} → TourFrom w v → TourStep v u → TourFrom w u

  -- The step is one of the tour's, and only a tour that is shown is exiting.
  pub record IsTour (s : OnboardingState) : Type 0 where
    pub in_range : s.current_step < total
    pub exiting_is_active : s.is_exiting ≡ true → s.is_active ≡ true

  handle_key_down-IsTour :
      (key : Key) (s : OnboardingState) → IsTour s → IsTour (handle_key_down total key s)
  unfolding handle_key_down
  handle_key_down-IsTour arrow_right s h = ground arith
  handle_key_down-IsTour enter s h = ground arith
  handle_key_down-IsTour arrow_left s h = ground arith
  handle_key_down-IsTour escape s h = ground arith
  handle_key_down-IsTour other_key s h = ground arith

  click-IsTour :
      (control : Control) (s : OnboardingState) → IsTour s → IsTour (click total control s)
  unfolding click
  click-IsTour (dot i) s h = ground arith
  click-IsTour skip s h = ground arith
  click-IsTour previous s h = ground arith
  click-IsTour continue s h = ground arith
  click-IsTour launch s h = ground arith

  TourStep-IsTour :
      {w v : OnboardingState × Storage} → 0 < total → TourStep w v → IsTour w.0 → IsTour v.0
  unfolding auto_start start_onboarding handle_shutdown_end
  TourStep-IsTour pos (pressed key s store) h = handle_key_down-IsTour key s h
  TourStep-IsTour pos (clicked control s store) h = click-IsTour control s h
  TourStep-IsTour pos (mounted has_user s store) h = ground arith
  TourStep-IsTour pos (restarted s store) h = ground arith
  TourStep-IsTour pos (animated is_shutdown s store) h = ground arith

  -- Whatever is pressed, clicked and restarted, at a tour with at least one step the current step is
  -- one of them, and the tour is exiting only while it is active.
  pub TourFrom-IsTour :
      (store : Storage) {w : OnboardingState × Storage}
      → 0 < total
      → TourFrom (initial_onboarding ws store, store) w
      → IsTour w.0
  unfolding initial_onboarding
  TourFrom-IsTour store pos at_start = record { in_range = pos; exiting_is_active = λ e. cc }
  TourFrom-IsTour store pos (and_step before step) =
      TourStep-IsTour pos step (TourFrom-IsTour store pos before)

  -- the key pressed a number of times
  abbrev pub press : Key → ℕ → OnboardingState → OnboardingState
  press key zero s = s
  press key (suc n) s = press key n (handle_key_down total key s)

  -- The tour is on its way out: still shown, and with the shutdown animation.
  record IsLeaving (s : OnboardingState) : Type 0 where
    exiting : s.is_exiting ≡ true
    active : s.is_active ≡ true
    in_range : s.current_step < total

  press_exits :
      (n : ℕ) (s : OnboardingState)
      → s.is_active ≡ true
      → s.is_exiting ≡ false
      → s.current_step + suc n ≡ total
      → IsLeaving (press arrow_right (suc n) s)
  unfolding handle_key_down
  press_exits zero s active running left = ground arith
  press_exits (suc n) s active running left =
      press_exits n (handle_key_down total arrow_right s) (ground arith) (ground arith)
        (ground arith)

  -- What the end of the shutdown animation makes of the tour and of the storage.
  pub record HasEnded (store : Storage) (w : OnboardingState × Storage) : Type 0 where
    pub closed : (w.0).is_active ≡ false
    pub completed : (w.0).has_completed ≡ true
    pub persisted : w.1 ≡ persist_completed ws store

  shutdown-HasEnded :
      (s : OnboardingState) (store : Storage)
      → IsLeaving s
      → HasEnded store (handle_shutdown_end ws total true s store)
  unfolding handle_shutdown_end
  shutdown-HasEnded s store h = ground arith

  -- A tour that is shown ends: with the right arrow key pressed once for each step that is left it
  -- exits, and the end of the shutdown animation closes it, marks it as completed and persists that.
  pub tour_ends :
      (s : OnboardingState) (store : Storage)
      → s.is_active ≡ true
      → s.is_exiting ≡ false
      → s.current_step < total
      → HasEnded store
          (handle_shutdown_end ws total true (press arrow_right (total - s.current_step) s) store)
  tour_ends s store active running left =
      let steps : total - s.current_step ≡ suc (total - s.current_step - 1) = omega arith in
      rw steps (
        shutdown-HasEnded _ store
          (press_exits (total - s.current_step - 1) s active running (omega arith)))

module _ (ws : WebStorage) (store written last : ws.Storage)
    (first : ws.set_item storage_key_completed "true" store ≡ some written)
    (second : ws.set_item storage_key_version onboarding_version written ≡ some last) where
  persist_completed_lem : persist_completed ws store ≡ last
  unfolding persist_completed
  persist_completed_lem = ground arith

  read_completed-last : read_completed ws last ≡ true
  unfolding read_completed
  read_completed-last = ground (
    arith,
    ws.get-set storage_key_version storage_key_version onboarding_version written last second,
    eq_refl storage_key_version,
    eq_refl onboarding_version,
  )

  read_completed-persist_completed : read_completed ws (persist_completed ws store) ≡ true
  read_completed-persist_completed = rw persist_completed_lem read_completed-last

  -- If the storage accepts both writes, a page that is loaded after the tour has ended finds it
  -- completed, and does not start it again for a user.
  pub tour_not_repeated :
      ((initial_onboarding ws (persist_completed ws store)).has_completed ≡ true)
      × (auto_start true (initial_onboarding ws (persist_completed ws store))
          ≡ initial_onboarding ws (persist_completed ws store))
  unfolding auto_start initial_onboarding
  tour_not_repeated = (read_completed-persist_completed, rw read_completed-persist_completed refl)
