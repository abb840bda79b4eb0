-- ===== src/Onboarding/Spotlights.antt =====
-- frontend/src/components/onboarding/SectionSpotlight.tsx and SidebarSpotlight.tsx: the rectangles
-- that are highlighted. A page gives the rectangle of each target that it shows; how far the frame
-- lies around it is left out.
use etl_nexus.Common.{Bool, true, false, Option, none, some, if◌then◌else◌, ◌≡◌, refl, if-holds}

-- `rect` of SectionSpotlight, and whether its timer of 500 ms is pending
pub record SectionState (Rect : Type 0) : Type 0 where
  pub rect : Option Rect
  pub pending : Bool

module _ {Rect : Type 0} where
  -- the effect of a new target, after the clean-up of the one before
  unfoldable pub change_target : SectionState Rect
  change_target = record { rect = none; pending = true }

  abbrev kept : Option Rect → Option Rect → Option Rect
  kept old none = old
  kept old (some rect) = some rect

module _ {Target Rect : Type 0} where
  -- `updatePosition`, at a resize of the window or in the frame after one of the body
  unfoldable pub update_position :
      (Target → Option Rect) → Target → SectionState Rect → SectionState Rect
  update_position page target s = record s { rect = page target }

  unfoldable pub fire_measure :
      (Target → Option Rect) → Target → SectionState Rect → SectionState Rect
  unfolding update_position
  fire_measure page target s =
      if s.pending then record (update_position page target s) { pending = false } else s

  -- `updatePosition` of SidebarSpotlight, which keeps the rectangle where the target is not shown
  unfoldable pub update_sidebar : (Target → Option Rect) → Target → Option Rect → Option Rect
  update_sidebar page target rect = kept rect (page target)

  module _ (Lies : Target → Rect → Type 0) where
    -- the page gives no rectangle that its target does not lie in
    abbrev pub IsHonest : (Target → Option Rect) → Type 0
    IsHonest page = (target : Target) (rect : Rect) → page target ≡ some rect → Lies target rect

    -- A spotlight for one target after the other, at pages that may differ each time.
    pub data SectionRun : Target → SectionState Rect → Type 0 where
      retargeted : (target : Target) → SectionRun target change_target
      resized :
          {target : Target} {s : SectionState Rect} (page : Target → Option Rect)
          → IsHonest page
          → SectionRun target s
          → SectionRun target (update_position page target s)
      fired :
          {target : Target} {s : SectionState Rect} (page : Target → Option Rect)
          → IsHonest page
          → SectionRun target s
          → SectionRun target (fire_measure page target s)

    abbrev ShowsTarget : Target → SectionState Rect → Type 0
    ShowsTarget target s = (rect : Rect) → s.rect ≡ some rect → Lies target rect

    -- What is highlighted is never where an earlier target was.
    SectionRun-ShowsTarget :
        {target : Target} {s : SectionState Rect} → SectionRun target s → ShowsTarget target s
    unfolding change_target update_position fire_measure
    SectionRun-ShowsTarget (retargeted target) = λ rect e. absurd (cc)
    SectionRun-ShowsTarget (resized {target} page honest before) = honest target
    SectionRun-ShowsTarget (fired {target} {s} page honest before) =
        if-holds (ShowsTarget target) s.pending (λ _. honest target)
          (λ _. SectionRun-ShowsTarget before)

  -- The ring around an icon of the sidebar stays at the icon before where the new one is missing.
  update_sidebar_missing :
      (page : Target → Option Rect) (target : Target) (rect : Option Rect)
      → page target ≡ none
      → update_sidebar page target rect ≡ rect
  unfolding update_sidebar
  update_sidebar_missing page target rect missing = rw missing refl
