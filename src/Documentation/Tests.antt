-- ===== src/Documentation/Tests.antt =====
-- Runs of the documentation editor and of its toolbar at concrete texts.
use etl_nexus.Common.{
  ◌-◌, true, false, List, [], ◌∷◌, some, Text, codes, ◌≡◌, ◌≢◌, ◌⊎◌, refl, arith,
}
use etl_nexus.Documentation.{
  DocProps, DocState, preview, edit, initial_doc, preview_content, receive_props, click_card,
  click_modal_tab, edit_text, click_save,
}
use etl_nexus.Documentation.Code.{Child, plain, element, code_text, code_view, block}
use etl_nexus.Documentation.Editing.{
  DocRun, log, mounted, and_then, opened, tab_clicked, typed, save_clicked, IsGuarded,
  DocRun-IsGuarded,
}
use etl_nexus.Documentation.Refetching.{receive_props-discards}
use etl_nexus.Documentation.Toolbar.{
  Editor, Options, insert_at_cursor, insertion_of, press_button, bold, heading_1, task_list,
  horizontal_rule,
}
use etl_nexus.Documentation.Toolbar.Selection.{IsInText, IsInserted, insert_at_cursor-IsInserted}
use etl_nexus.Documentation.Toolbar.Places.{
  place_of, IsPlaced, length_before, press_button-StartsWell,
}

-- "one two" with "two" selected
abbrev second_word : Editor
second_word = record { text = codes "one two"; selection_start = 4; selection_end = 7 }

second_word-IsInText : IsInText second_word
second_word-IsInText = record { ordered = omega arith; inside = omega arith }

abbrev bold_options : Options
bold_options = record { newline = false; placeholder = codes "bold" }

second_word_bold :
    press_button bold second_word
    ≡ record { text = codes "one **two**"; selection_start = 6; selection_end = 9 }
unfolding press_button
second_word_bold = refl

second_word_heading : (press_button heading_1 second_word).text ≡ codes "one \n# two"
unfolding press_button
second_word_heading = refl

-- a block replaces nothing: it is put before the selection
second_word_rule : (press_button horizontal_rule second_word).text ≡ codes "one \n\n---two"
unfolding press_button
second_word_rule = refl

insert_at_cursor-IsInserted_example :
    IsInserted
      (codes "**")
      (codes "**")
      bold_options
      second_word
      (insert_at_cursor (codes "**") (codes "**") bold_options second_word)
insert_at_cursor-IsInserted_example =
    insert_at_cursor-IsInserted (codes "**") (codes "**") bold_options second_word
      second_word-IsInText

press_button-StartsWell_example :
    IsInText (press_button task_list second_word)
    × IsPlaced (place_of task_list) (press_button task_list second_word).text (
        (press_button task_list second_word).selection_start
        - length_before (insertion_of task_list))
press_button-StartsWell_example = press_button-StartsWell task_list second_word second_word-IsInText

abbrev props : DocProps
props = record { documentation = some (codes "old"); is_saving = false; can_edit = true }

abbrev at_card : DocState
at_card = initial_doc props

abbrev at_preview : DocState
at_preview = click_card props at_card

abbrev at_editor : DocState
at_editor = click_modal_tab edit props at_preview

abbrev at_text : DocState
at_text = edit_text (codes "new") at_editor

at_preview_open : at_preview.doc_open ≡ true
unfolding click_card initial_doc
at_preview_open = refl

at_editor_open : at_editor.doc_open ≡ true
unfolding click_card click_modal_tab initial_doc
at_editor_open = refl

at_text_open : at_text.doc_open ≡ true
unfolding click_card edit_text click_modal_tab initial_doc
at_text_open = refl

saved_text : (click_save props at_text).1 ≡ some (codes "new")
unfolding click_save edit_text click_modal_tab click_card initial_doc
saved_text = refl

-- a cleared text previews the documentation as it was
cleared_previews_old : preview_content props [] ≡ codes "old"
unfolding preview_content
cleared_previews_old = refl

abbrev at_saved : DocState
at_saved = (click_save props at_text).0

abbrev saved_texts : List Text
saved_texts = log (click_save props at_text).1 []

abbrev a_run : DocRun props at_saved saved_texts
a_run =
    and_then
      (and_then
        (and_then (and_then (mounted props) (opened props at_card))
          (tab_clicked edit props at_preview at_preview_open))
        (typed (codes "new") props at_editor at_editor_open))
      (save_clicked props at_text)

DocRun-IsGuarded_example :
    IsGuarded props.can_edit at_saved × (saved_texts ≢ [] → props.can_edit ≡ true)
DocRun-IsGuarded_example = DocRun-IsGuarded a_run

abbrev refetched : DocProps
refetched = record props { documentation = some (codes "of another") }

receive_props-discards_example :
    ((props.documentation ≢ refetched.documentation)
      × ((receive_props props refetched at_text).active_tab ≡ preview)
      × (preview_content refetched (receive_props props refetched at_text).edit_value
          ≡ codes "of another"))
    ⊎ ((props.documentation ≡ refetched.documentation)
        × (receive_props props refetched at_text ≡ at_text))
receive_props-discards_example = receive_props-discards props refetched at_text at_text_open

-- "const x" with its first word highlighted
abbrev highlighted_program : List Child
highlighted_program = element (codes "const") ∷ plain (codes " x") ∷ []

-- an element as JavaScript writes objects that do not say how
abbrev an_object : Text
an_object = codes "[object Object]"

copied_program : code_text an_object highlighted_program ≡ codes "[object Object], x"
unfolding code_text
copied_program = refl

program_lang :
    code_view an_object (some (codes "hljs language-js")) []
    ≡ block (some (codes "js")) [] (codes "undefined")
unfolding code_view
program_lang = refl
