-- ===== src/Shared/CopyButton.antt =====
-- frontend/src/components/shared/CopyButton.tsx: the tick that is shown for two seconds after a
-- click. `writes` says whether the clipboard of the browser accepts the text; the fallback cannot
-- fail.
mod Ticks
use etl_nexus.Common.{ℕ, ◌+◌, Bool, true, false, String, List, [], ◌∷◌, ◌++◌, Option, none, some}

-- how the text came to the clipboard
pub data Copied : Type 0 where
  by_clipboard by_text_area : String → Copied

-- `copied`, and the timers that run, the oldest one first, as the times when they are due
pub record CopyState : Type 0 where
  pub copied : Bool
  pub due : List ℕ

unfoldable pub way_of : Bool → String → Copied
way_of true text = by_clipboard text
way_of false text = by_text_area text

-- `handleCopy` at a time in milliseconds: both branches show the tick and start a timer
unfoldable pub handle_copy : Bool → String → ℕ → CopyState → CopyState × Copied
unfolding way_of
handle_copy writes text now s =
    (record { copied = true; due = s.due ++ ((now + 2000) ∷ []) }, way_of writes text)

abbrev without_first : List ℕ → List ℕ
without_first [] = []
without_first (time ∷ times) = times

-- the oldest timer fires
unfoldable pub fire_tick : CopyState → CopyState
fire_tick s = record { copied = false; due = without_first s.due }
