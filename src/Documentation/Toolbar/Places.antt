-- ===== src/Documentation/Toolbar/Places.antt =====
-- Where Markdown reads what each button of the toolbar inserts.
use etl_nexus.Common.{ℕ, ◌-◌, refl, Text, length}
use etl_nexus.Documentation.Toolbar.{
  Button, bold, italic, strikethrough, heading_1, heading_2, heading_3, heading_4, bullet_list,
  numbered_list, task_list, link, code_block, table, horizontal_rule, collapsible_section,
  rtl_block, press_button, insertion_of, Editor, Insertion, wrap, block,
}
use etl_nexus.Documentation.Toolbar.Selection.{IsInText, insert-IsInText}
use etl_nexus.Documentation.Toolbar.Lines.{IsLineStart, IsAfterBlank, insert-StartsWell}

-- Where Markdown reads what a button inserts: anywhere in a line, at its start, or after a blank line.
pub data Place : Type 0 where
  in_line at_line_start after_blank : Place

abbrev pub place_of : Button → Place
place_of bold = in_line
place_of italic = in_line
place_of strikethrough = in_line
place_of link = in_line
place_of heading_1 = at_line_start
place_of heading_2 = at_line_start
place_of heading_3 = at_line_start
place_of heading_4 = at_line_start
place_of bullet_list = at_line_start
place_of numbered_list = at_line_start
place_of task_list = after_blank
place_of code_block = after_blank
place_of table = after_blank
place_of horizontal_rule = after_blank
place_of collapsible_section = after_blank
place_of rtl_block = after_blank

abbrev pub IsPlaced : Place → Text → ℕ → Type 0
IsPlaced in_line text n = Unit
IsPlaced at_line_start text n = IsLineStart text n
IsPlaced after_blank text n = IsAfterBlank text n

-- the length of what stands between the start of an insertion and the selection after it
abbrev pub length_before : Insertion → ℕ
length_before (wrap before after opts) = length before
length_before (block text) = length text

press_button-IsInText :
    (button : Button) (e : Editor) → IsInText e → IsInText (press_button button e)
unfolding press_button
press_button-IsInText button e h = insert-IsInText (insertion_of button) e h

press_button-IsPlaced :
    (button : Button) (e : Editor)
    → IsInText e
    → let new = press_button button e in
      IsPlaced
        (place_of button)
        new.text
        (new.selection_start - length_before (insertion_of button))
unfolding press_button
press_button-IsPlaced bold e h = tt
press_button-IsPlaced italic e h = tt
press_button-IsPlaced strikethrough e h = tt
press_button-IsPlaced link e h = tt
press_button-IsPlaced heading_1 e h = insert-StartsWell e h (insertion_of heading_1) refl
press_button-IsPlaced heading_2 e h = insert-StartsWell e h (insertion_of heading_2) refl
press_button-IsPlaced heading_3 e h = insert-StartsWell e h (insertion_of heading_3) refl
press_button-IsPlaced heading_4 e h = insert-StartsWell e h (insertion_of heading_4) refl
press_button-IsPlaced bullet_list e h = insert-StartsWell e h (insertion_of bullet_list) refl
press_button-IsPlaced numbered_list e h = insert-StartsWell e h (insertion_of numbered_list) refl
press_button-IsPlaced task_list e h = insert-StartsWell e h (insertion_of task_list)
press_button-IsPlaced code_block e h = insert-StartsWell e h (insertion_of code_block)
press_button-IsPlaced table e h = insert-StartsWell e h (insertion_of table)
press_button-IsPlaced horizontal_rule e h = insert-StartsWell e h (insertion_of horizontal_rule)
press_button-IsPlaced collapsible_section e h =
    insert-StartsWell e h (insertion_of collapsible_section)
press_button-IsPlaced rtl_block e h = insert-StartsWell e h (insertion_of rtl_block)

-- Whichever button is pressed while the selection lies in the text, the selection afterwards lies
-- in the new text. What the buttons of the four headings and of the bullet and numbered lists insert
-- starts at the start of the text or right after a line feed; what those of the task list, the code
-- block, the table, the rule, the collapsible section and the right-to-left block insert starts at
-- the start of the text or after two line feeds.
pub press_button-StartsWell :
    (button : Button) (e : Editor)
    → IsInText e
    → let new = press_button button e in
      IsInText new
      × IsPlaced
          (place_of button)
          new.text
          (new.selection_start - length_before (insertion_of button))
press_button-StartsWell button e h =
    (press_button-IsInText button e h, press_button-IsPlaced button e h)
