-- ===== src/Export.antt =====
-- frontend/src/lib/export.ts: the CSV file that is downloaded. A value of a row is its text by
-- `String`, or nothing where it is null or undefined.
mod Parsing
mod Reading
mod Tests
use etl_nexus.Common.{
  ℕ, Bool, true, false, not, ◌||◌, List, [], ◌∷◌, ◌++◌, map, any, Option, none, some, if◌then◌else◌,
  ◌==◌, Text, codes, same_text,
}

-- an entry of `rows`
abbrev pub Row : Type 0
Row = List (Text × Option Text)

-- `Object.keys(row)`
unfoldable pub keys : Row → List Text
keys [] = []
keys ((key, value) ∷ entries) = key ∷ keys entries

abbrev text_or_empty : Option Text → Text
text_or_empty none = []
text_or_empty (some text) = text

-- `row[h]`, as a text
unfoldable pub cell_of : Row → Text → Text
unfolding same_text
cell_of [] h = []
cell_of ((key, value) ∷ entries) h =
    if same_text key h then text_or_empty value else cell_of entries h

-- `str.includes(c)` at a single character
abbrev pub has_char : ℕ → Text → Bool
has_char c str = any (λ d. d == c) str

abbrev pub needs_quotes : Text → Bool
needs_quotes str = has_char b',' str || has_char b'\n' str || has_char b'"' str

-- `str.replace(/"/g, '""')`
unfoldable pub double_quotes : Text → Text
double_quotes [] = []
double_quotes (c ∷ str) =
    let rest = double_quotes str in if c == b'"' then c ∷ c ∷ rest else c ∷ rest

unfoldable pub escape_cell : Text → Text
unfolding double_quotes
escape_cell str = if needs_quotes str then b'"' ∷ double_quotes str ++ b'"' ∷ [] else str

-- `texts.join(c)` at a single character
unfoldable pub join : ℕ → List Text → Text
join c [] = []
join c (text ∷ []) = text
join c (text ∷ next ∷ texts) = text ++ c ∷ join c (next ∷ texts)

-- the line of a row, under the headers
unfoldable pub row_line : List Text → Row → Text
unfolding join escape_cell cell_of
row_line headers row = join b',' (map (λ h. escape_cell (cell_of row h)) headers)

-- the text of the file, if there are rows
unfoldable pub csv_text : List Row → Option Text
unfolding keys join row_line
csv_text [] = none
csv_text (first ∷ rows) =
    let headers = keys first in
    some (join b'\n' (join b',' headers ∷ map (row_line headers) (first ∷ rows)))

pub record CsvFile : Type 0 where
  pub filename : Text
  pub mime : Text
  pub content : Text

abbrev pub named_csv : Text → Option Text → Option CsvFile
named_csv filename none = none
named_csv filename (some content) = some (record {
  filename = filename ++ codes ".csv";
  mime = codes "text/csv;charset=utf-8";
  content = content;
})

-- `downloadAsCSV`: the file that is downloaded, if there are rows
unfoldable pub download_as_csv : List Row → Text → Option CsvFile
unfolding csv_text
download_as_csv rows filename = named_csv filename (csv_text rows)
