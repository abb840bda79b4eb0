-- ===== src/EditableTitle/View.antt =====
-- frontend/src/components/bento-workspace/EditableTitle.tsx: what is shown of the description. The
-- list of its history is that of Revisions.
use etl_nexus.Common.{
  ℕ, Bool, true, false, not, ◌&&◌, String, [], ◌∷◌, Option, none, some, if◌then◌else◌, Text, length,
  ◌≡◌, arith,
}
use etl_nexus.EditableTitle.{TitleState, start_editing}

pub data TitleView : Type 0 where
  editor : (value : Text) → (used : ℕ) → (save_enabled : Bool) → (save_label : String) → TitleView
  reading : (description : Option Text) → (history_open : Bool) → (edit_offered : Bool) → TitleView

-- `description || "No description"`
abbrev pub shown_description : Option Text → Option Text
shown_description none = none
shown_description (some []) = none
shown_description (some (c ∷ text)) = some (c ∷ text)

unfoldable pub title_view : Option Text → (can_edit is_saving : Bool) → TitleState → TitleView
title_view description can_edit is_saving s =
    if s.is_editing_desc && can_edit
    then editor s.edit_value (length s.edit_value) (not is_saving)
        (if is_saving then "Saving…" else "Save Changes")
    else reading (shown_description description) s.desc_history_open can_edit

abbrev shows_editor : TitleView → Bool
shows_editor (editor value used save_enabled save_label) = true
shows_editor (reading description history_open edit_offered) = false

abbrev offers_edit : TitleView → Bool
offers_edit (editor value used save_enabled save_label) = false
offers_edit (reading description history_open edit_offered) = edit_offered

-- Where the button "Edit Description" is offered, pressing it shows the editor.
start_editing-offered :
    (description : Option Text) (can_edit is_saving : Bool) (s : TitleState)
    → offers_edit (title_view description can_edit is_saving s) ≡ true
    → shows_editor
        (title_view description can_edit is_saving (start_editing can_edit description s))
      ≡ true
unfolding title_view start_editing
start_editing-offered description can_edit is_saving s offered = ground arith
