-- ===== src/Shared/CopyButton/Ticks.antt =====
-- How long the tick is shown.
use etl_nexus.Common.{ℕ, ◌+◌, Bool, true, false, String, List, [], ◌∷◌, ◌++◌, ◌≡◌, ◌≢◌, refl}
use etl_nexus.Shared.CopyButton.{CopyState, handle_copy, fire_tick}

pub data CopyRun : CopyState → Type 0 where
  mounted : CopyRun (record { copied = false; due = [] })
  clicked :
      {s : CopyState} (writes : Bool) (text : String) (now : ℕ)
      → CopyRun s
      → CopyRun (handle_copy writes text now s).0
  ticked : {s : CopyState} → CopyRun s → CopyRun (fire_tick s)

append_ne : (times : List ℕ) (time : ℕ) → times ++ time ∷ [] ≢ []
append_ne [] time e = cc
append_ne (t ∷ times) time e = cc

-- In every run a tick that is shown is taken away again: while it is shown some timer runs, and
-- any timer that fires takes it away, also one that an earlier click has started.
CopyRun-ends :
    {s : CopyState} → CopyRun s → (s.copied ≡ true → s.due ≢ []) × ((fire_tick s).copied ≡ false)
unfolding handle_copy fire_tick
CopyRun-ends mounted = (λ e. cc, refl)
CopyRun-ends (clicked {s = s} writes text now run) = (λ _. append_ne s.due (now + 2000), refl)
CopyRun-ends (ticked run) = (λ e. cc, refl)
