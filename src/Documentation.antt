-- ===== src/Documentation.antt =====
-- frontend/src/components/bento-workspace/DocumentationPreview.tsx and DocumentationModal.tsx: the
-- documentation of a product, its editor and the tabs. The history tab is that of Revisions.
pub mod Toolbar
pub mod View
mod Code
mod Editing
pub mod Refetching
mod Tests
use etl_nexus.Common.{
  Bool, true, false, not, ◌&&◌, List, [], ◌∷◌, Option, none, some, if◌then◌else◌, Text, same_text,
  trim, ℕ, length, ltb,
}
use etl_nexus.Documentation.Toolbar.{Editor, Button, press_button}

pub data ModalTab : Type 0 where
  preview edit history : ModalTab

-- what the workspace hands to the preview, and the preview to the modal
pub record DocProps : Type 0 where
  pub documentation : Option Text
  pub is_saving : Bool
  pub can_edit : Bool

-- `docOpen` of the preview and the state of the modal
pub record DocState : Type 0 where
  pub doc_open : Bool
  pub active_tab : ModalTab
  pub edit_value : Text
  pub cheatsheet_open : Bool

-- `documentation ?? ""`
abbrev pub or_empty : Option Text → Text
or_empty none = []
or_empty (some text) = text

unfoldable pub initial_doc : DocProps → DocState
initial_doc p = record {
  doc_open = false;
  active_tab = preview;
  edit_value = or_empty p.documentation;
  cheatsheet_open = false;
}

unfoldable pub is_editing : ModalTab → Bool
is_editing preview = false
is_editing edit = true
is_editing history = false

-- `editValue || documentation || ""`
unfoldable pub preview_content : DocProps → Text → Text
preview_content p [] = or_empty p.documentation
preview_content p (c ∷ text) = c ∷ text

-- whether the modal shows EmptyDocState in place of the text
unfoldable pub shows_empty_state : DocProps → DocState → Bool
unfolding preview_content
shows_empty_state p s = not (ltb 0 (length (trim (preview_content p s.edit_value))))

-- the effect of `[documentation]`
unfoldable pub reset_effect : DocProps → DocState → DocState
reset_effect p s = record s { edit_value = or_empty p.documentation }

-- the effect of `[open, documentation]`
unfoldable pub open_doc_effect : DocProps → DocState → DocState
open_doc_effect p s =
    if s.doc_open
    then record s {
      active_tab = preview;
      edit_value = or_empty p.documentation;
      cheatsheet_open = false;
    }
    else s

abbrev same_documentation : Option Text → Option Text → Bool
same_documentation none none = true
same_documentation none (some b) = false
same_documentation (some a) none = false
same_documentation (some a) (some b) = same_text a b

-- The workspace renders with other props: the effects run when the documentation is another one.
unfoldable pub receive_props : DocProps → DocProps → DocState → DocState
unfolding reset_effect open_doc_effect
receive_props old new s =
    if same_documentation old.documentation new.documentation
    then s
    else open_doc_effect new (reset_effect new s)

-- the card's `onClick`, and the effect that follows
unfoldable pub click_card : DocProps → DocState → DocState
unfolding open_doc_effect
click_card p s = if s.doc_open then s else open_doc_effect p (record s { doc_open = true })

-- `onClose`
unfoldable pub close_doc : DocState → DocState
close_doc s = record s { doc_open = false }

-- `onSave` of the modal: the state, and the text that goes to `updatePipeline`
unfoldable pub on_save : Text → DocState → DocState × Option Text
on_save text s = (record s { doc_open = false }, some text)

unfoldable pub handle_save : DocState → DocState × Option Text
unfolding on_save
handle_save s =
    let (next, saved) = on_save s.edit_value s in (record next { active_tab = preview }, saved)

-- the button "Save"
unfoldable pub click_save : DocProps → DocState → DocState × Option Text
unfolding handle_save is_editing
click_save p s =
    if s.doc_open && (is_editing s.active_tab && (p.can_edit && not p.is_saving))
    then handle_save s
    else (s, none)

pub data DocKey : Type 0 where
  escape ctrl_s other_key : DocKey

-- the listener of an open modal
unfoldable pub handle_open_key : DocKey → DocState → DocState × Option Text
unfolding close_doc on_save is_editing
handle_open_key escape s = (close_doc s, none)
handle_open_key ctrl_s s = if is_editing s.active_tab then on_save s.edit_value s else (s, none)
handle_open_key other_key s = (s, none)

unfoldable pub handle_key : DocKey → DocState → DocState × Option Text
unfolding handle_open_key
handle_key key s = if s.doc_open then handle_open_key key s else (s, none)

-- the three buttons of the header
unfoldable pub click_modal_tab : ModalTab → DocProps → DocState → DocState
click_modal_tab preview p s = record s { active_tab = preview; cheatsheet_open = false }
click_modal_tab edit p s = if p.can_edit then record s { active_tab = edit } else s
click_modal_tab history p s = record s { active_tab = history; cheatsheet_open = false }

-- the text area of the editor
unfoldable pub edit_text : Text → DocState → DocState
unfolding is_editing
edit_text text s = if is_editing s.active_tab then record s { edit_value = text } else s

-- a button of the toolbar, with the selection of the text area
unfoldable pub press_toolbar : Button → ℕ → ℕ → DocState → DocState
unfolding edit_text
press_toolbar button from to s =
    let editor : Editor = record {
      text = s.edit_value;
      selection_start = from;
      selection_end = to;
    } in
    edit_text (press_button button editor).text s

unfoldable pub toggle_cheatsheet : DocState → DocState
unfolding is_editing
toggle_cheatsheet s =
    if is_editing s.active_tab then record s { cheatsheet_open = not s.cheatsheet_open } else s

-- `onRestored` of the history
unfoldable pub on_restored : DocState → DocState
on_restored s = record s { active_tab = preview }
