-- ===== src/Revisions.antt =====
-- frontend/src/components/bento-workspace/RevisionHistoryPanel.tsx: the history of a product's
-- documentation, and the short one of its description. What a settled restore tells and fetches
-- again is `restore_settled` of Queries.
mod Restoring
mod Shown
mod Tests
use etl_nexus.Common.{
  ℕ, Bool, true, false, not, ◌&&◌, String, List, [], ◌∷◌, ◌++◌, Option, none, some, if◌then◌else◌,
  ◌===◌, Text, codes, length, take, ltb,
}

pub record Revision : Type 0 where
  pub id : String
  pub content : Option Text
  pub changed_by : String
  pub change_source : String

-- SourceBadge
unfoldable pub source_label : String → String
source_label source =
    if source === "user"
    then "User edit"
    else if source === "restore"
    then "Restored"
    else if source === "system"
    then "System"
    else source

-- what `useRevisions` returns; `failed` has no `data`
pub data Fetched : Type 0 where
  loading failed : Fetched
  loaded : List Revision → Fetched

-- what a panel shows
pub data HistoryView : Type 0 where
  spinner no_history : HistoryView
  rows : List Revision → HistoryView

-- the revisions that are rendered, or the text in their place
abbrev rows_or_none : List Revision → HistoryView
rows_or_none [] = no_history
rows_or_none (r ∷ rs) = rows (r ∷ rs)

unfoldable pub panel_view : Fetched → HistoryView
panel_view loading = spinner
panel_view failed = no_history
panel_view (loaded revisions) = rows_or_none revisions

-- CompactRevisionList: `revisions.slice(0, 10)`
abbrev first_ten : HistoryView → HistoryView
first_ten spinner = spinner
first_ten no_history = no_history
first_ten (rows revisions) = rows (take 10 revisions)

unfoldable pub compact_view : Fetched → HistoryView
unfolding panel_view
compact_view fetched = first_ten (panel_view fetched)

-- the text of a row; none is "Empty content"
unfoldable pub shown_content : Option Text → Option Text
shown_content none = none
shown_content (some []) = none
shown_content (some (c ∷ text)) =
    let content = c ∷ text in
    some (if ltb 500 (length content) then take 500 content ++ codes "..." else content)

-- the text of a row of the short list
unfoldable pub compact_content : Option Text → Text
compact_content none = codes "(empty)"
compact_content (some []) = codes "(empty)"
compact_content (some (c ∷ text)) = c ∷ text

-- `confirmId`, and the revision whose restore is pending
pub record PanelState : Type 0 where
  pub confirm_id : Option String
  pub restoring : Option String

abbrev pub is_id : Option String → String → Bool
is_id none id = false
is_id (some other) id = other === id

abbrev pub is_none : Option String → Bool
is_none none = true
is_none (some id) = false

-- the button "Restore" of a row, shown to those who can edit unless the row asks for confirmation
unfoldable pub click_restore : Bool → String → PanelState → PanelState
click_restore can_edit id p =
    if can_edit && not (is_id p.confirm_id id) then record p { confirm_id = some id } else p

-- the button "Cancel"
unfoldable pub cancel_confirm : PanelState → PanelState
cancel_confirm p = record p { confirm_id = none }

-- `handleRestore`: the state, and the revision that is sent
unfoldable pub handle_restore : String → PanelState → PanelState × Option String
handle_restore id p = (record p { restoring = some id }, some id)

-- the button "Confirm" of a row
unfoldable pub click_confirm : Bool → String → PanelState → PanelState × Option String
unfolding handle_restore
click_confirm can_edit id p =
    if can_edit && (is_id p.confirm_id id && is_none p.restoring)
    then handle_restore id p
    else (p, none)

-- The server answers: after a success the confirmation is over, and `onRestored` is called.
unfoldable pub restore_answered : Bool → PanelState → PanelState × Bool
restore_answered true p = (record { confirm_id = none; restoring = none }, true)
restore_answered false p = (record p { restoring = none }, false)

-- the button "Restore" of the short list, which asks for no confirmation
unfoldable pub click_compact : Bool → String → PanelState → PanelState × Option String
unfolding handle_restore
click_compact can_edit id p =
    if can_edit && is_none p.restoring then handle_restore id p else (p, none)
