-- ===== src/Export/Reading.antt =====
-- A file that is written is read back.
use etl_nexus.Common.{
  true, false, not, List, [], ◌∷◌, ◌++◌, map, all, Option, none, some, Text, codes, ◌≡◌, ◌≢◌, refl,
  sym, ◌∙◌, ap, arith, append_assoc, append-nil,
}
use etl_nexus.Export.{
  Row, keys, cell_of, needs_quotes, escape_cell, join, row_line, csv_text, CsvFile, download_as_csv,
}
use etl_nexus.Export.Parsing.{
  Table, next_cell, next_row, parse, start, plain, puts, puts-cons, ends_cell, parse-escape_cell,
}

-- the line of some cells
abbrev line_of : List Text → Text
line_of cells = join b',' (map escape_cell cells)

plain_comma : (s : Text) → parse plain (b',' ∷ s) ≡ next_cell (parse start s)
unfolding parse
plain_comma s = refl

plain_feed : (s : Text) → parse plain (b'\n' ∷ s) ≡ next_row (parse start s)
unfolding parse
plain_feed s = refl

plain_end : parse plain [] ≡ ([] ∷ []) ∷ []
unfolding parse
plain_end = refl

next_cell-cons : (cells : List Text) (rows : Table) → next_cell (cells ∷ rows) ≡ ([] ∷ cells) ∷ rows
unfolding next_cell
next_cell-cons cells rows = refl

puts-empty :
    (word : Text) (cells : List Text) (rows : Table)
    → puts word (([] ∷ cells) ∷ rows) ≡ (word ∷ cells) ∷ rows
puts-empty word cells rows =
    puts-cons word [] cells rows ∙ ap (λ w. (w ∷ cells) ∷ rows) (append-nil word)

-- A line is read back as its cells, where the text after it is at the end of a row.
line_of-read :
    (word : Text) (words : List Text) (s : Text) (rows : Table)
    → ends_cell s ≡ true
    → parse plain s ≡ ([] ∷ []) ∷ rows
    → parse start (line_of (word ∷ words) ++ s) ≡ (word ∷ words) ∷ rows
unfolding join
line_of-read word [] s rows e rest =
    parse-escape_cell word s e ∙ (ap (puts word) rest ∙ puts-empty word [] rows)
line_of-read word (next ∷ words) s rows e rest =
    ap (parse start) (append_assoc (escape_cell word) (b',' ∷ line_of (next ∷ words)) s)
    ∙ (parse-escape_cell word (b',' ∷ line_of (next ∷ words) ++ s) refl
        ∙ (ap (puts word) (
              plain_comma (line_of (next ∷ words) ++ s)
              ∙ (ap next_cell (line_of-read next words s rows e rest)
                  ∙ next_cell-cons (next ∷ words) rows))
            ∙ puts-empty word (next ∷ words) rows))

-- the cells of every row, none of which is empty
abbrev Filled : Type 0
Filled = List (Text × List Text)

abbrev cells_of : Text × List Text → List Text
cells_of (word, words) = word ∷ words

abbrev lines_of : Filled → List Text
lines_of rows = map (λ row. line_of (cells_of row)) rows

lines_of-read :
    (row : Text × List Text) (rows : Filled)
    → parse start (join b'\n' (lines_of (row ∷ rows))) ≡ map cells_of (row ∷ rows)
unfolding join
lines_of-read (word, words) [] =
    ap (parse start) (sym (append-nil (line_of (word ∷ words))))
    ∙ line_of-read word words [] [] refl plain_end
lines_of-read (word, words) (next ∷ rows) =
    line_of-read word words (b'\n' ∷ join b'\n' (lines_of (next ∷ rows)))
      (map cells_of (next ∷ rows)) refl
      (plain_feed (join b'\n' (lines_of (next ∷ rows))) ∙ ap next_row (lines_of-read next rows))

escape_cell-plain : (text : Text) → needs_quotes text ≡ false → escape_cell text ≡ text
unfolding escape_cell
escape_cell-plain text h = ground arith

map-escape_cell :
    (headers : List Text)
    → all (λ h. not (needs_quotes h)) headers ≡ true
    → map escape_cell headers ≡ headers
map-escape_cell [] h = refl
map-escape_cell (header ∷ headers) h =
    ap (λ t. t ∷ map escape_cell headers) (escape_cell-plain header (ground arith))
    ∙ ap (λ ts. header ∷ ts) (map-escape_cell headers (ground arith))

abbrev filled : Text → List Text → List Row → Filled
filled header headers rows = map (λ row. (cell_of row header, map (cell_of row) headers)) rows

escaped_cells :
    (row : Row) (headers : List Text)
    → map (λ h. escape_cell (cell_of row h)) headers ≡ map escape_cell (map (cell_of row) headers)
escaped_cells row [] = refl
escaped_cells row (header ∷ headers) =
    ap (λ ts. escape_cell (cell_of row header) ∷ ts) (escaped_cells row headers)

row_lines :
    (header : Text) (headers : List Text) (rows : List Row)
    → map (row_line (header ∷ headers)) rows ≡ lines_of (filled header headers rows)
unfolding row_line
row_lines header headers [] = refl
row_lines header headers (row ∷ rows) =
    ap (λ ts. join b',' ts ∷ map (row_line (header ∷ headers)) rows)
      (escaped_cells row (header ∷ headers))
    ∙ ap (λ ts. line_of (map (cell_of row) (header ∷ headers)) ∷ ts) (row_lines header headers rows)

cells_filled :
    (header : Text) (headers : List Text) (rows : List Row)
    → map cells_of (filled header headers rows)
      ≡ map (λ row. map (cell_of row) (header ∷ headers)) rows
cells_filled header headers [] = refl
cells_filled header headers (row ∷ rows) =
    ap (λ ts. map (cell_of row) (header ∷ headers) ∷ ts) (cells_filled header headers rows)

abbrev pub parsed : Option Text → Option Table
parsed none = none
parsed (some text) = some (parse start text)

table_read :
    (header : Text) (headers : List Text) (rows : List Row)
    → all (λ h. not (needs_quotes h)) (header ∷ headers) ≡ true
    → parse start
        (join b'\n' (join b',' (header ∷ headers) ∷ map (row_line (header ∷ headers)) rows))
      ≡ (header ∷ headers) ∷ map (λ row. map (cell_of row) (header ∷ headers)) rows
table_read header headers rows h =
    ap (λ ts. parse start (join b'\n' (join b',' (header ∷ headers) ∷ ts)))
      (row_lines header headers rows)
    ∙ (ap (λ ts. parse start (join b'\n' (join b',' ts ∷ lines_of (filled header headers rows))))
          (sym (map-escape_cell (header ∷ headers) h))
        ∙ (lines_of-read (header, headers) (filled header headers rows)
            ∙ ap (λ ts. (header ∷ headers) ∷ ts) (cells_filled header headers rows)))

table_read_of :
    (headers : List Text) (rows : List Row)
    → headers ≢ []
    → all (λ h. not (needs_quotes h)) headers ≡ true
    → parse start (join b'\n' (join b',' headers ∷ map (row_line headers) rows))
      ≡ headers ∷ map (λ row. map (cell_of row) headers) rows
table_read_of [] rows some_key bare = absurd (some_key refl)
table_read_of (header ∷ headers) rows some_key bare = table_read header headers rows bare

-- If the first row has keys and none of them holds a comma, a quote or a line feed, a file is
-- downloaded under the name with ".csv", and a reader of CSV texts gets back from it the keys and
-- then, for every row, the value of each key, whatever characters the values hold; a value that is
-- missing is read as the empty text.
pub download_as_csv-read :
    (first : Row) (rows : List Row) (filename : Text)
    → keys first ≢ []
    → all (λ h. not (needs_quotes h)) (keys first) ≡ true
    → (file : CsvFile) × (download_as_csv (first ∷ rows) filename ≡ some file)
      × (file.filename ≡ filename ++ codes ".csv")
      × (parse start file.content
          ≡ keys first ∷ map (λ row. map (cell_of row) (keys first)) (first ∷ rows))
unfolding download_as_csv csv_text
download_as_csv-read first rows filename some_key bare =
    (_, refl, refl, table_read_of (keys first) (first ∷ rows) some_key bare)

-- If the first row has keys and none of them holds a comma, a quote or a line feed, a reader of CSV
-- texts gets back the keys and then, for every row, the value of each key, whatever characters the
-- values hold; a value that is missing is read as the empty text.
pub csv_text-read :
    (first : Row) (rows : List Row)
    → keys first ≢ []
    → all (λ h. not (needs_quotes h)) (keys first) ≡ true
    → parsed (csv_text (first ∷ rows))
      ≡ some (keys first ∷ map (λ row. map (cell_of row) (keys first)) (first ∷ rows))
unfolding csv_text
csv_text-read first rows some_key bare =
    ap some (table_read_of (keys first) (first ∷ rows) some_key bare)
