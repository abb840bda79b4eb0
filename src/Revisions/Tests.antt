-- ===== src/Revisions/Tests.antt =====
-- Runs of the history panel, and rows at concrete texts.
use etl_nexus.Common.{true, [], ◌∷◌, none, some, ◌≡◌, refl}
use etl_nexus.Revisions.{
  PanelState, failed, no_history, panel_view, click_restore, click_confirm, click_compact,
  source_label,
}
use etl_nexus.Revisions.Restoring.{
  Trace, log_sent, mounted, restore_clicked, confirmed, IsConfirmed, PanelRun-IsConfirmed,
}

abbrev at_rest : PanelState
at_rest = record { confirm_id = none; restoring = none }

abbrev at_confirm : PanelState
at_confirm = click_restore true "r1" at_rest

abbrev at_sent : PanelState
at_sent = (click_confirm true "r1" at_confirm).0

abbrev sent_trace : Trace
sent_trace =
    log_sent (click_confirm true "r1" at_confirm).1
      (record { asked = "r1" ∷ []; sent = []; answers = 0 })

first_click : click_restore true "r1" at_rest ≡ record { confirm_id = some "r1"; restoring = none }
unfolding click_restore
first_click = refl

second_click :
    click_confirm true "r1" at_confirm
    ≡ (record { confirm_id = some "r1"; restoring = some "r1" }, some "r1")
unfolding click_confirm click_restore
second_click = refl

not_while_pending :
    click_confirm true "r1" (record { confirm_id = some "r1"; restoring = some "r2" })
    ≡ (record { confirm_id = some "r1"; restoring = some "r2" }, none)
unfolding click_confirm
not_while_pending = refl

-- a history that failed to load is shown as an empty one
failed_shows_none : panel_view failed ≡ no_history
unfolding panel_view
failed_shows_none = refl

-- the short list sends at the first click
compact_sends_at_once : (click_compact true "r1" at_rest).1 ≡ some "r1"
unfolding click_compact
compact_sends_at_once = refl

unknown_source : source_label "import" ≡ "import"
unfolding source_label
unknown_source = refl

PanelRun-IsConfirmed_example : IsConfirmed true at_sent sent_trace
PanelRun-IsConfirmed_example =
    PanelRun-IsConfirmed true (confirmed "r1" (restore_clicked "r1" (mounted)))
