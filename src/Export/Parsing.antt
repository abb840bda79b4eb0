-- ===== src/Export/Parsing.antt =====
-- A reader of CSV texts, after RFC 4180 with a line feed between the rows.
use etl_nexus.Common.{
  ℕ, Bool, true, false, not, ◌&&◌, ◌||◌, List, [], ◌∷◌, ◌++◌, if◌then◌else◌, ◌==◌, Text, ◌≡◌, refl,
  ◌∙◌, ap, arith, append_assoc, Bool-cases, inl, inr,
}
use etl_nexus.Export.{needs_quotes, double_quotes, escape_cell}

-- the rows of cells that a text has
abbrev pub Table : Type 0
Table = List (List Text)

-- a character in front of the first cell
unfoldable pub put : ℕ → Table → Table
put c [] = []
put c ([] ∷ rows) = [] ∷ rows
put c ((cell ∷ cells) ∷ rows) = ((c ∷ cell) ∷ cells) ∷ rows

-- an empty cell in front of the first row
unfoldable pub next_cell : Table → Table
next_cell [] = []
next_cell (cells ∷ rows) = ([] ∷ cells) ∷ rows

abbrev pub next_row : Table → Table
next_row rows = ([] ∷ []) ∷ rows

-- outside of quotes: what follows the character as part of a cell, and as the start of a cell
unfoldable pub step : ℕ → Table → Table → Table
unfolding put next_cell
step c inside start =
    if c == b',' then next_cell start else if c == b'\n' then next_row start else put c inside

pub data Mode : Type 0 where
  start plain quoted closing : Mode

unfoldable pub parse : Mode → Text → Table
unfolding step put
parse mode [] = ([] ∷ []) ∷ []
parse start (c ∷ s) =
    let inside = parse quoted s in
    let outside = step c (parse plain s) (parse start s) in if c == b'"' then inside else outside
parse plain (c ∷ s) = step c (parse plain s) (parse start s)
parse quoted (c ∷ s) =
    let closed = parse closing s in
    let inside = put c (parse quoted s) in if c == b'"' then closed else inside
parse closing (c ∷ s) =
    let inside = put c (parse quoted s) in
    let outside = step c (parse plain s) (parse start s) in if c == b'"' then inside else outside

-- a word in front of the first cell
abbrev pub puts : Text → Table → Table
puts [] rows = rows
puts (c ∷ word) rows = put c (puts word rows)

pub puts-cons :
    (word cell : Text) (cells : List Text) (rows : Table)
    → puts word ((cell ∷ cells) ∷ rows) ≡ ((word ++ cell) ∷ cells) ∷ rows
unfolding put
puts-cons [] cell cells rows = refl
puts-cons (c ∷ word) cell cells rows = ap (put c) (puts-cons word cell cells rows)

-- The text is at the end of a cell.
abbrev pub ends_cell : Text → Bool
ends_cell [] = true
ends_cell (c ∷ s) = c == b',' || c == b'\n'

abbrev pub is_plain : Text → Bool
is_plain [] = true
is_plain (c ∷ s) = (not (c == b'"') && (not (c == b',') && not (c == b'\n'))) && is_plain s

needs_quotes-is_plain : (word : Text) → needs_quotes word ≡ false → is_plain word ≡ true
needs_quotes-is_plain [] h = refl
needs_quotes-is_plain (c ∷ word) h = ground (arith, needs_quotes-is_plain word)

parse-start : (s : Text) → ends_cell s ≡ true → parse start s ≡ parse plain s
unfolding parse
parse-start [] h = refl
parse-start (c ∷ s) h = ground arith

parse-closing : (s : Text) → ends_cell s ≡ true → parse closing s ≡ parse plain s
unfolding parse
parse-closing [] h = refl
parse-closing (c ∷ s) h = ground arith

step_plain :
    (c : ℕ) (inside outside : Table)
    → not (c == b',') && not (c == b'\n') ≡ true
    → step c inside outside ≡ put c inside
unfolding step
step_plain c inside outside h = ground arith

parse-plain-append :
    (word s : Text) → is_plain word ≡ true → parse plain (word ++ s) ≡ puts word (parse plain s)
unfolding parse
parse-plain-append [] s h = refl
parse-plain-append (c ∷ word) s h =
    step_plain c (parse plain (word ++ s)) (parse start (word ++ s)) (ground arith)
    ∙ ap (put c) (parse-plain-append word s (ground arith))

parse_unquoted : (c : ℕ) (s : Text) → c == b'"' ≡ false → parse start (c ∷ s) ≡ parse plain (c ∷ s)
unfolding parse
parse_unquoted c s h = ground arith

parse-start-append :
    (word s : Text)
    → is_plain word ≡ true
    → ends_cell s ≡ true
    → parse start (word ++ s) ≡ puts word (parse plain s)
parse-start-append [] s h e = parse-start s e
parse-start-append (c ∷ word) s h e =
    parse_unquoted c (word ++ s) (ground arith) ∙ parse-plain-append (c ∷ word) s h

quoted_other :
    (c : ℕ) (s : Text) → c == b'"' ≡ false → parse quoted (c ∷ s) ≡ put c (parse quoted s)
unfolding parse
quoted_other c s h = ground arith

quoted_twice :
    (c : ℕ) (s : Text) → c == b'"' ≡ true → parse quoted (c ∷ c ∷ s) ≡ put c (parse quoted s)
unfolding parse
quoted_twice c s h = ground arith

quoted_end : (s : Text) → parse quoted (b'"' ∷ s) ≡ parse closing s
unfolding parse
quoted_end s = refl

parse-quoted-double :
    (word s : Text) → parse quoted (double_quotes word ++ b'"' ∷ s) ≡ puts word (parse closing s)
unfolding double_quotes
parse-quoted-double [] s = quoted_end s
parse-quoted-double (c ∷ word) s = elim (Bool-cases (c == b'"')) [
  | inl is_quote ↦ rw is_quote (
      quoted_twice c (double_quotes word ++ b'"' ∷ s) is_quote
      ∙ ap (put c) (parse-quoted-double word s))
  | inr other ↦ rw other (
      quoted_other c (double_quotes word ++ b'"' ∷ s) other
      ∙ ap (put c) (parse-quoted-double word s))
]

start_quote : (s : Text) → parse start (b'"' ∷ s) ≡ parse quoted s
unfolding parse
start_quote s = refl

-- A cell that is written is read back, up to the end of the cell.
pub parse-escape_cell :
    (word s : Text)
    → ends_cell s ≡ true
    → parse start (escape_cell word ++ s) ≡ puts word (parse plain s)
unfolding escape_cell
parse-escape_cell word s e = elim (Bool-cases (needs_quotes word)) [
  | inl quote ↦ rw quote (
      start_quote ((double_quotes word ++ b'"' ∷ []) ++ s)
      ∙ (ap (parse quoted) (append_assoc (double_quotes word) (b'"' ∷ []) s)
          ∙ (parse-quoted-double word s ∙ ap (puts word) (parse-closing s e))))
  | inr bare ↦ rw bare (parse-start-append word s (needs_quotes-is_plain word bare) e)
]
