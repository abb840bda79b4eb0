-- ===== src/Shared/ErrorBoundary.antt =====
-- frontend/src/components/shared/ErrorBoundary.tsx: what is shown once a child has thrown. An error
-- is its message; `production` stands for `import.meta.env.PROD`.
mod Hidden
use etl_nexus.Common.{Bool, true, false, String, Option, none, some, if◌then◌else◌}

pub record BoundaryState : Type 0 where
  pub has_error : Bool
  pub error : Option String

unfoldable pub initial_boundary : BoundaryState
initial_boundary = record { has_error = false; error = none }

unfoldable pub get_derived_state_from_error : String → BoundaryState
get_derived_state_from_error message = record { has_error = true; error = some message }

pub data BoundaryView : Type 0 where
  children_shown : BoundaryView
  error_page : (details : Option String) → BoundaryView

abbrev details_of : Bool → Option String → Option String
details_of production none = none
details_of production (some message) =
    some (if production then "An unexpected error occurred. Please reload the page." else message)

-- `render`
unfoldable pub render_boundary : Bool → BoundaryState → BoundaryView
render_boundary production s =
    if s.has_error then error_page (details_of production s.error) else children_shown
