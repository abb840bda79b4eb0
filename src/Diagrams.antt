-- ===== src/Diagrams.antt =====
-- frontend/src/lib/export-visual.ts: the texts in the exported files of a diagram, and the decoding
-- of data URLs; the three exports are in Downloads. The drawing is html-to-image's.
mod Downloads
mod Decoding
mod Escaping
mod Tests
use etl_nexus.Common.{
  ℕ, Bool, true, false, ◌&&◌, ◌||◌, List, [], ◌∷◌, ◌++◌, map, Option, none, some, if◌then◌else◌,
  ◌==◌, ◌%◌, leb, Text, codes, split_on,
}

-- `str.replace(/c/g, by)` for one character
unfoldable pub replace_all : ℕ → Text → Text → Text
replace_all c by [] = []
replace_all c by (d ∷ text) =
    let rest = replace_all c by text in if d == c then by ++ rest else d ∷ rest

unfoldable pub escape_html : Text → Text
unfolding replace_all
escape_html text = replace_all b'"' (codes "&quot;") (
    replace_all b'>' (codes "&gt;")
      (replace_all b'<' (codes "&lt;") (replace_all b'&' (codes "&amp;") text)))

-- the title of the exported page
unfoldable pub page_title : Text → Text
unfolding escape_html
page_title title = escape_html title ++ codes " - Lineage"

-- `[a-zA-Z0-9]`
abbrev pub is_alphanumeric : ℕ → Bool
is_alphanumeric c =
    (leb b'a' c && leb c b'z') || ((leb b'A' c && leb c b'Z') || (leb b'0' c && leb c b'9'))

abbrev pub or_underscore : ℕ → ℕ
or_underscore c = if is_alphanumeric c then c else b'_'

-- the name of the exported file
unfoldable pub file_name : Text → Text
file_name title = map or_underscore title ++ codes "_lineage.html"

abbrev put_before : ℕ → Option Text → Option Text
put_before c none = none
put_before c (some text) = some (c ∷ text)

-- `(.*?);`: the text up to a semicolon on the same line
unfoldable pub until_semicolon : Text → Option Text
until_semicolon [] = none
until_semicolon (c ∷ text) =
    let rest = until_semicolon text in
    if c == b';' then some [] else if c == b'\n' then none else put_before c rest

abbrev or_else : Option Text → Option Text → Option Text
or_else none other = other
or_else (some text) other = some text

-- `header.match(/:(.*?);/)?.[1]`
unfoldable pub mime_of : Text → Option Text
unfolding until_semicolon
mime_of [] = none
mime_of (c ∷ text) =
    let later = mime_of text in if c == b':' then or_else (until_semicolon text) later else later

pub record Blob : Type 0 where
  pub mime : Text
  pub bytes : List ℕ

abbrev or_octets : Option Text → Text
or_octets none = codes "application/octet-stream"
or_octets (some mime) = mime

-- a code unit in a Uint8Array
abbrev byte_of : ℕ → ℕ
byte_of c = c % 256

abbrev blob_of : Text → Option Text → Option Blob
blob_of header none = none
blob_of header (some binary) =
    some (record { mime = or_octets (mime_of header); bytes = map byte_of binary })

-- `const [header, base64] = dataUrl.split(",")`, where a missing part is undefined
abbrev parts_of : List Text → Text × Text
parts_of [] = (codes "undefined", codes "undefined")
parts_of (header ∷ []) = (header, codes "undefined")
parts_of (header ∷ base64 ∷ rest) = (header, base64)

-- `atob` of the browser gives nothing where it throws.
unfoldable pub data_url_to_blob : (Text → Option Text) → Text → Option Blob
unfolding mime_of
data_url_to_blob atob url =
    let (header, base64) = parts_of (split_on b',' url) in blob_of header (atob base64)
