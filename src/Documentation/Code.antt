-- ===== src/Documentation/Code.antt =====
-- frontend/src/components/bento-workspace/documentation/markdown-components.tsx: the code of a
-- rendered documentation. The other elements only have classes.
use etl_nexus.Common.{
  ℕ, zero, suc, ◌||◌, ◌==◌, List, [], ◌∷◌, ◌++◌, map, Option, none, some, if◌then◌else◌, Text,
  codes, starts_with, includes, trim, ◌≡◌, ap, sym, append-nil,
}
use etl_nexus.Export.{join}

-- A child of an element of React: a text, or an element that shows a text, as highlighting puts them
-- around the words of a program. `object_text` stands for what `String` makes of an element.
pub data Child : Type 0 where
  plain : Text → Child
  element : Text → Child

module _ (object_text : Text) where
  unfoldable pub child_text : Child → Text
  child_text (plain text) = text
  child_text (element text) = object_text

  -- `String(children)`; code without children has undefined in their place.
  unfoldable pub string_of : List Child → Text
  unfolding join child_text
  string_of [] = codes "undefined"
  string_of (child ∷ children) = join b',' (map child_text (child ∷ children))

-- `text.replace(/\n$/, "")`
unfoldable pub without_newline : Text → Text
without_newline [] = []
without_newline (c ∷ []) = if c == b'\n' then [] else c ∷ []
without_newline (c ∷ d ∷ text) = c ∷ without_newline (d ∷ text)

-- the text that the button of a block copies
unfoldable pub code_text : Text → List Child → Text
unfolding string_of without_newline
code_text object_text children = without_newline (string_of object_text children)

-- `className.replace(/language-|hljs /g, "")`; the number counts what is still to be skipped.
unfoldable pub skip_classes : ℕ → Text → Text
unfolding starts_with
skip_classes skipped [] = []
skip_classes (suc skipped) (c ∷ text) = skip_classes skipped text
skip_classes zero (c ∷ text) =
    let language = skip_classes 8 text in
    let highlight = skip_classes 4 text in
    let rest = skip_classes zero text in
    if starts_with (codes "language-") (c ∷ text)
    then language
    else if starts_with (codes "hljs ") (c ∷ text)
    then highlight
    else c ∷ rest

abbrev shown_lang : Text → Option Text
shown_lang [] = none
shown_lang (c ∷ lang) = some (c ∷ lang)

pub data CodeView : Type 0 where
  inline : List Child → CodeView
  block : (lang : Option Text) → List Child → (copied : Text) → CodeView

unfoldable pub code_view : Text → Option Text → List Child → CodeView
unfolding code_text skip_classes includes trim
code_view object_text none children = inline children
code_view object_text (some class_name) children =
    if includes (codes "language-") class_name || includes (codes "hljs") class_name
    then block (shown_lang (trim (skip_classes zero class_name))) children
        (code_text object_text children)
    else inline children

-- what the block shows
abbrev shown_text : List Child → Text
shown_text [] = []
shown_text (plain text ∷ children) = text ++ shown_text children
shown_text (element text ∷ children) = text ++ shown_text children

-- the button of a block that is one text copies what is shown, without a line feed at its end
code_text-plain :
    (object_text program : Text)
    → code_text object_text (plain program ∷ []) ≡ without_newline (shown_text (plain program ∷ []))
unfolding code_text string_of
code_text-plain object_text program = ap without_newline (sym (append-nil program))
