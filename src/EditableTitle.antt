-- ===== src/EditableTitle.antt =====
-- frontend/src/components/bento-workspace/EditableTitle.tsx: the description of a product.
mod Limit
mod View
mod Tests
use etl_nexus.Common.{
  ℕ, Bool, true, false, not, ◌&&◌, ◌||◌, List, [], ◌∷◌, Option, none, some, if◌then◌else◌, Text,
  take,
}

pub record TitleState : Type 0 where
  pub is_editing_desc : Bool
  pub edit_value : Text
  pub desc_history_open : Bool

-- `description ?? ""`
abbrev pub or_empty : Option Text → Text
or_empty none = []
or_empty (some text) = text

-- the effect of another product or another description
unfoldable pub reset_title : Option Text → TitleState → TitleState
reset_title description s = record {
  is_editing_desc = false;
  edit_value = or_empty description;
  desc_history_open = false;
}

-- the button "Edit Description", shown to those who can edit
unfoldable pub start_editing : Bool → Option Text → TitleState → TitleState
start_editing can_edit description s =
    if can_edit && not s.is_editing_desc
    then record s { edit_value = or_empty description; is_editing_desc = true }
    else s

-- the `onChange` of the text area
unfoldable pub change_text : Text → TitleState → TitleState
change_text text s = record s { edit_value = take 270 text }

-- the state, and the description that is handed to `onSaveDescription`
unfoldable pub handle_save_desc : TitleState → TitleState × Text
handle_save_desc s = (record s { is_editing_desc = false }, s.edit_value)

unfoldable pub handle_cancel_edit : Option Text → TitleState → TitleState
handle_cancel_edit description s = record s {
  edit_value = or_empty description;
  is_editing_desc = false;
}

pub data TitleKey : Type 0 where
  ctrl_enter escape other_key : TitleKey

unfoldable pub handle_title_key : TitleKey → Option Text → TitleState → TitleState × Option Text
unfolding handle_save_desc handle_cancel_edit
handle_title_key ctrl_enter description s =
    let (next, saved) = handle_save_desc s in (next, some saved)
handle_title_key escape description s = (handle_cancel_edit description s, none)
handle_title_key other_key description s = (s, none)

unfoldable pub toggle_history : TitleState → TitleState
toggle_history s = record s { desc_history_open = not s.desc_history_open }
