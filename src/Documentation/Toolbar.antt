-- ===== src/Documentation/Toolbar.antt =====
-- frontend/src/components/bento-workspace/documentation/doc-toolbar.tsx: what the buttons above the
-- text area insert. The icons and labels are left out.
pub mod Selection
pub mod Lines
pub mod Places
use etl_nexus.Common.{
  ℕ, zero, suc, ◌+◌, ◌-◌, Bool, true, false, not, ◌&&◌, ◌||◌, List, [], ◌∷◌, ◌++◌, Option, none,
  some, if◌then◌else◌, ◌==◌, ltb, Text, codes, length, take, drop, get_elem?,
}

-- the value of the text area and its selection
pub record Editor : Type 0 where
  pub text : Text
  pub selection_start : ℕ
  pub selection_end : ℕ

-- `text.slice(from, to)`
unfoldable pub slice : ℕ → ℕ → Text → Text
slice from to text = take (to - from) (drop from text)

abbrev is_feed : Option ℕ → Bool
is_feed none = false
is_feed (some c) = c == b'\n'

-- `start > 0 && editValue[start - 1] !== "\n"`
unfoldable pub is_inside_line : Text → ℕ → Bool
is_inside_line text start = ltb 0 start && not (is_feed (get_elem? text (start - 1)))

-- `opts`
pub record Options : Type 0 where
  pub newline : Bool
  pub placeholder : Text

-- `selected || placeholder`
unfoldable pub or_placeholder : Text → Text → Text
or_placeholder [] placeholder = placeholder
or_placeholder (c ∷ selected) placeholder = c ∷ selected

-- `prefix` of `insertAtCursor`
unfoldable pub line_prefix : Bool → Text → ℕ → Text
unfolding is_inside_line
line_prefix newline text start = if newline && is_inside_line text start then b'\n' ∷ [] else []

-- the text that stands between `before` and `after`
unfoldable pub inserted_text : Options → Editor → Text
unfolding slice or_placeholder
inserted_text opts e =
    or_placeholder (slice e.selection_start e.selection_end e.text) opts.placeholder

unfoldable pub insert_at_cursor : Text → Text → Options → Editor → Editor
unfolding line_prefix inserted_text
insert_at_cursor before after opts e =
    let start = e.selection_start in
    let prefix = line_prefix opts.newline e.text start in
    let text = inserted_text opts e in
    let selection = start + length prefix + length before in
    record {
      text =
          take start e.text
          ++ (prefix ++ (before ++ (text ++ (after ++ drop e.selection_end e.text))));
      selection_start = selection;
      selection_end = selection + length text;
    }

-- `prefix` of `insertBlock`
unfoldable pub block_prefix : Text → ℕ → Text
unfolding is_inside_line
block_prefix text start =
    if is_inside_line text start then b'\n' ∷ b'\n' ∷ [] else if ltb 0 start then b'\n' ∷ [] else []

unfoldable pub insert_block : Text → Editor → Editor
unfolding block_prefix
insert_block block e =
    let start = e.selection_start in
    let prefix = block_prefix e.text start in
    let cursor = start + length prefix + length block in
    record {
      text = take start e.text ++ (prefix ++ (block ++ drop start e.text));
      selection_start = cursor;
      selection_end = cursor;
    }

-- the buttons of MarkdownToolbar
pub data Button : Type 0 where
  bold italic strikethrough heading_1 heading_2 heading_3 heading_4 bullet_list numbered_list :
      Button
  task_list link code_block table horizontal_rule collapsible_section rtl_block : Button

-- What a button does: it wraps the selection, or inserts a block.
pub data Insertion : Type 0 where
  wrap : Text → Text → Options → Insertion
  block : Text → Insertion

abbrev inline : Text → Text → Text → Insertion
inline before after placeholder =
    wrap before after (record { newline = false; placeholder = placeholder })

abbrev line : Text → Text → Insertion
line before placeholder = wrap before [] (record { newline = true; placeholder = placeholder })

-- "\u05D8\u05E7\u05E1\u05D8 \u05D1\u05E2\u05D1\u05E8\u05D9\u05EA"
abbrev hebrew : Text
hebrew = 1496 ∷ 1511 ∷ 1505 ∷ 1496 ∷ 32 ∷ 1489 ∷ 1506 ∷ 1489 ∷ 1512 ∷ 1497 ∷ 1514 ∷ []

unfoldable pub insertion_of : Button → Insertion
insertion_of bold = inline (codes "**") (codes "**") (codes "bold")
insertion_of italic = inline (codes "*") (codes "*") (codes "italic")
insertion_of strikethrough = inline (codes "~~") (codes "~~") (codes "text")
insertion_of heading_1 = line (codes "# ") (codes "Heading")
insertion_of heading_2 = line (codes "## ") (codes "Heading")
insertion_of heading_3 = line (codes "### ") (codes "Heading")
insertion_of heading_4 = line (codes "#### ") (codes "Heading")
insertion_of bullet_list = line (codes "- ") (codes "Item")
insertion_of numbered_list = line (codes "1. ") (codes "Item")
insertion_of task_list = block (codes "- [ ] Task 1\n- [ ] Task 2\n- [ ] Task 3")
insertion_of link = inline (codes "[") (codes "](url)") (codes "text")
insertion_of code_block = block (codes "```python\n# code here\n```")
insertion_of table = block (
    codes
      "| Column 1 | Column 2 | Column 3 |\n|----------|----------|----------|\n| Cell 1   | Cell 2   | Cell 3   |\n| Cell 4   | Cell 5   | Cell 6   |")
insertion_of horizontal_rule = block (codes "---")
insertion_of collapsible_section =
    block (codes "<details>\n<summary>Click to expand</summary>\n\nContent here\n\n</details>")
insertion_of rtl_block =
    block (codes "<div dir=\"rtl\" lang=\"he\">\n\n" ++ (hebrew ++ codes "\n\n</div>"))

unfoldable pub insert : Insertion → Editor → Editor
unfolding insert_at_cursor insert_block
insert (wrap before after opts) e = insert_at_cursor before after opts e
insert (block text) e = insert_block text e

unfoldable pub press_button : Button → Editor → Editor
unfolding insertion_of insert
press_button button e = insert (insertion_of button) e
