-- ===== src/EditableTitle/Tests.antt =====
-- A description that is written anew.
use etl_nexus.Common.{◌≤◌, true, false, none, codes, length, arith}
use etl_nexus.EditableTitle.{TitleState, start_editing, change_text, reset_title, handle_save_desc}
use etl_nexus.EditableTitle.Limit.{shown, and_then, started, changed, IsWithin, Edits-IsWithin}

abbrev blank : TitleState
blank = record { is_editing_desc = false; edit_value = codes "old"; desc_history_open = true }

abbrev written : TitleState
written = change_text (codes "Logins per day") (start_editing true none (reset_title none blank))

Edits-IsWithin_example : (IsWithin true written) × (length (handle_save_desc written).1 ≤ 270)
Edits-IsWithin_example = Edits-IsWithin true none blank (omega arith) (
    and_then (and_then shown (started (reset_title none blank)))
      (changed (codes "Logins per day") (start_editing true none (reset_title none blank))))
