-- ===== src/Documentation/View.antt =====
-- frontend/src/components/bento-workspace/DocumentationModal.tsx, DocumentationPreview.tsx and
-- MarkdownEditor.tsx: what they show. Markdown and the history are other components'.
use etl_nexus.Common.{
  Bool, true, false, not, ◌&&◌, String, List, [], ◌∷◌, Option, none, some, if◌then◌else◌, Text,
  split_on, trim, ◌≡◌, arith,
}
use etl_nexus.Documentation.{
  ModalTab, preview, edit, history, DocProps, DocState, is_editing, preview_content,
  shows_empty_state, or_empty, click_save, handle_save,
}

pub record SaveButton : Type 0 where
  pub enabled : Bool
  pub label : String

-- the part of the modal under its header
pub data ModalBody : Type 0 where
  editor : (lines : List Text) → (cheatsheet_open : Bool) → ModalBody
  history_panel : (can_edit : Bool) → ModalBody
  markdown : Text → ModalBody
  empty_state : (hint : String) → ModalBody

pub record ModalView : Type 0 where
  pub title : String
  pub active_tab : ModalTab
  pub edit_enabled : Bool
  pub edit_tooltip : Option String
  pub save_control : Option SaveButton
  pub body : ModalBody
  pub footer : String × String

-- EmptyDocState
unfoldable pub empty_doc_hint : Bool → String
empty_doc_hint can_edit =
    if can_edit
    then "Switch to Edit to start writing in Markdown"
    else "Only team members can add documentation"

-- MarkdownEditor: a number for each line in the gutter, and the cheatsheet
unfoldable pub markdown_editor : Text → Bool → ModalBody
markdown_editor value cheatsheet_open = editor (split_on b'\n' value) cheatsheet_open

unfoldable pub modal_body : DocProps → DocState → ModalBody
unfolding markdown_editor shows_empty_state preview_content empty_doc_hint
modal_body p s = elim s.active_tab [
  | edit ↦ markdown_editor s.edit_value s.cheatsheet_open
  | history ↦ history_panel p.can_edit
  | preview ↦
      if shows_empty_state p s
      then empty_state (empty_doc_hint p.can_edit)
      else markdown (preview_content p s.edit_value)
]

unfoldable pub modal_footer : Bool → ModalTab → String × String
modal_footer can_edit edit =
    ("Markdown + GFM · Use toolbar for formatting", "Ctrl+S to save · Esc to close")
modal_footer can_edit history =
    ("Revision history · Previous versions of documentation", "Esc to close")
modal_footer can_edit preview = (
  if can_edit then "Read-only preview" else "View only — you don’t have edit permissions",
  "Esc to close",
)

unfoldable pub save_button : DocProps → DocState → Option SaveButton
unfolding is_editing
save_button p s =
    if is_editing s.active_tab && p.can_edit
    then some
        (record { enabled = not p.is_saving; label = if p.is_saving then "Saving…" else "Save" })
    else none

-- the modal, if it is open
unfoldable pub modal_view : String → DocProps → DocState → Option ModalView
unfolding modal_body modal_footer save_button
modal_view pipeline_name p s =
    if s.doc_open
    then some (record {
      title = pipeline_name;
      active_tab = s.active_tab;
      edit_enabled = p.can_edit;
      edit_tooltip =
          if p.can_edit
          then none
          else some "You don't have permission to edit this pipeline's documentation";
      save_control = save_button p s;
      body = modal_body p s;
      footer = modal_footer p.can_edit s.active_tab;
    })
    else none

-- DocumentationPreview: the card on the page
unfoldable pub card_view : DocProps → ModalBody
unfolding trim
card_view p = elim (trim (or_empty p.documentation)) [
  | c ∷ rest ↦ markdown (or_empty p.documentation)
  | [] ↦ empty_state (if p.can_edit then "Click to add documentation" else "No documentation yet")
]

-- A view shows a button "Save" that can be pressed.
abbrev pub offers : Option SaveButton → Bool
offers none = false
offers (some button) = button.enabled

abbrev pub offers_save : Option ModalView → Bool
offers_save none = false
offers_save (some view) = offers view.save_control

abbrev pub is_saved : Option Text → Bool
is_saved none = false
is_saved (some text) = true

-- The page shows a button "Save" that can be pressed exactly when pressing it saves a text.
pub modal_view-offers :
    (pipeline_name : String) (p : DocProps) (s : DocState)
    → offers_save (modal_view pipeline_name p s) ≡ is_saved (click_save p s).1
unfolding modal_view save_button click_save handle_save
modal_view-offers pipeline_name p s = ground arith
