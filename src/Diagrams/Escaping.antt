-- ===== src/Diagrams/Escaping.antt =====
-- What an exported page and its file name can hold of a title.
use etl_nexus.Common.{
  ℕ, true, false, [], ◌∷◌, ◌++◌, map, if◌then◌else◌, ◌==◌, Text, codes, length, length-append, ◌+◌,
  all, All, All-append, Bool-cases, if-holds, ◌≡◌, ◌≢◌, ◌⊎◌, inl, inr, refl, sym, ◌∙◌, ap, arith,
  append_assoc, starts_with, zero, suc,
}
use etl_nexus.Diagrams.{replace_all, escape_html, is_alphanumeric, or_underscore, file_name}

-- the entity of a character, or the character
abbrev pub entity : ℕ → Text
entity c =
    if c == b'&'
    then codes "&amp;"
    else if c == b'<'
    then codes "&lt;"
    else if c == b'>'
    then codes "&gt;"
    else if c == b'"'
    then codes "&quot;"
    else c ∷ []

-- each character replaced by its entity, at once
abbrev pub entities : Text → Text
entities [] = []
entities (c ∷ text) = entity c ++ entities text

replace_all-append :
    (c : ℕ) (by xs ys : Text)
    → replace_all c by (xs ++ ys) ≡ replace_all c by xs ++ replace_all c by ys
unfolding replace_all
replace_all-append c by [] ys = refl
replace_all-append c by (x ∷ xs) ys = elim (Bool-cases (x == c)) [
  | inl same ↦
      rw (same, replace_all-append c by xs ys)
        (sym (append_assoc by (replace_all c by xs) (replace_all c by ys)))
  | inr other ↦ rw (other, replace_all-append c by xs ys) refl
]

escape_html-append : (xs ys : Text) → escape_html (xs ++ ys) ≡ escape_html xs ++ escape_html ys
unfolding escape_html
escape_html-append xs ys = simp replace_all-append

escape_html-one : (c : ℕ) → escape_html (c ∷ []) ≡ entity c
unfolding escape_html replace_all
escape_html-one c = ground arith

-- How a browser reads the four entities: the first part is the number of code units that belong to
-- an entity already read.
abbrev entity_at : Text → ℕ × ℕ
entity_at text =
    if starts_with (codes "amp;") text
    then (b'&', 4)
    else if starts_with (codes "lt;") text
    then (b'<', 3)
    else if starts_with (codes "gt;") text
    then (b'>', 3)
    else if starts_with (codes "quot;") text
    then (b'"', 5)
    else (b'&', 0)

abbrev pub read_html : ℕ → Text → Text
read_html skip [] = []
read_html (suc skip) (c ∷ text) = read_html skip text
read_html zero (c ∷ text) =
    if c == b'&'
    then (entity_at text).0 ∷ read_html (entity_at text).1 text
    else c ∷ read_html 0 text

read_html-entity : (c : ℕ) (rest : Text) → read_html 0 (entity c ++ rest) ≡ c ∷ read_html 0 rest
unfolding starts_with
read_html-entity c rest = ground arith

-- A character that cannot open a tag or close an attribute's value.
abbrev pub IsInert : ℕ → Type 0
IsInert c = (c ≢ b'<') × ((c ≢ b'>') × (c ≢ b'"'))

ne : (c d : ℕ) → (c == d) ≡ false → c ≢ d
ne c d h = ground arith

entity-IsInert : (c : ℕ) → All IsInert (entity c)
entity-IsInert c =
    if-holds (All IsInert) (c == b'&') (λ _. omega arith)
      (λ _.
        if-holds (All IsInert) (c == b'<') (λ _. omega arith)
          (λ not_lt.
            if-holds (All IsInert) (c == b'>') (λ _. omega arith)
              (λ not_gt.
                if-holds (All IsInert) (c == b'"') (λ _. omega arith)
                  (λ not_quote.
                    ((ne c b'<' not_lt, (ne c b'>' not_gt, ne c b'"' not_quote)), tt)))))

entities-IsInert : (text : Text) → All IsInert (entities text)
entities-IsInert [] = tt
entities-IsInert (c ∷ text) =
    All-append IsInert (entity c) (entities text) (entity-IsInert c) (entities-IsInert text)

escape_html-entities : (text : Text) → escape_html text ≡ entities text
unfolding escape_html replace_all
escape_html-entities [] = refl
escape_html-entities (c ∷ text) =
    escape_html-append (c ∷ []) text
    ∙ (ap (λ first. first ++ escape_html text) (escape_html-one c)
        ∙ ap (λ rest. entity c ++ rest) (escape_html-entities text))

read_html-entities : (text : Text) → read_html 0 (entities text) ≡ text
read_html-entities [] = refl
read_html-entities (c ∷ text) =
    read_html-entity c (entities text) ∙ ap (λ rest. c ∷ rest) (read_html-entities text)

-- Whatever the title: the four replacements, one after the other, put each character's entity in
-- its place; the result holds no character that opens a tag or ends an attribute's value; and a
-- browser that reads the four entities gets the title back.
pub escape_html-read :
    (text : Text)
    → (escape_html text ≡ entities text)
      × (All IsInert (escape_html text) × (read_html 0 (escape_html text) ≡ text))
escape_html-read text =
    rw (escape_html-entities text) (refl, (entities-IsInert text, read_html-entities text))

-- A letter, a digit, an underscore or a full stop.
abbrev pub IsFileChar : ℕ → Type 0
IsFileChar c = (is_alphanumeric c ≡ true) ⊎ ((c ≡ b'_') ⊎ (c ≡ b'.'))

or_underscore-IsFileChar : (c : ℕ) → IsFileChar (or_underscore c)
or_underscore-IsFileChar c =
    if-holds IsFileChar (is_alphanumeric c) (λ e. inl e) (λ _. inr (inl refl))

map-IsFileChar : (title : Text) → All IsFileChar (map or_underscore title)
map-IsFileChar [] = tt
map-IsFileChar (c ∷ title) = (or_underscore-IsFileChar c, map-IsFileChar title)

length-map : (title : Text) → length (map or_underscore title) ≡ length title
length-map [] = refl
length-map (c ∷ title) = ap suc (length-map title)

letters-IsFileChar : (text : Text) → all is_alphanumeric text ≡ true → All IsFileChar text
letters-IsFileChar [] h = tt
letters-IsFileChar (c ∷ text) h = (inl (ground arith), letters-IsFileChar text (ground arith))

suffix-IsFileChar : All IsFileChar (codes "_lineage.html")
suffix-IsFileChar = (
  inr (inl refl),
  All-append IsFileChar (codes "lineage") (codes ".html")
      (letters-IsFileChar (codes "lineage") refl)
      (inr (inr refl), letters-IsFileChar (codes "html") refl),
)

-- The name of an exported file has letters, digits, underscores and full stops only, whatever the
-- title, and 13 characters more than it.
pub file_name-IsFileChar :
    (title : Text)
    → All IsFileChar (file_name title) × (length (file_name title) ≡ length title + 13)
unfolding file_name
file_name-IsFileChar title = (
  All-append IsFileChar (map or_underscore title) (codes "_lineage.html") (map-IsFileChar title)
      suffix-IsFileChar,
  omega (arith, length-append (map or_underscore title) (codes "_lineage.html"), length-map title),
)
