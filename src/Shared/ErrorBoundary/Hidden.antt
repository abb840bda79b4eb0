-- ===== src/Shared/ErrorBoundary/Hidden.antt =====
-- What a reader of the error page learns in production.
use etl_nexus.Common.{true, String, ◌≡◌, refl}
use etl_nexus.Shared.ErrorBoundary.{
  initial_boundary, get_derived_state_from_error, render_boundary, children_shown,
}

-- In production two errors show the same page; before any error the children are shown.
render_boundary-same :
    (a b : String)
    → (render_boundary true (get_derived_state_from_error a)
        ≡ render_boundary true (get_derived_state_from_error b))
      × (render_boundary true initial_boundary ≡ children_shown)
unfolding render_boundary get_derived_state_from_error initial_boundary
render_boundary-same a b = (refl, refl)
