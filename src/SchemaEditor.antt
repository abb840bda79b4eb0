-- ===== src/SchemaEditor.antt =====
-- frontend/src/components/bento-workspace/SchemaViewer.tsx: the type that is shown for a field, and
-- the rows of the schema editor. `lower` stands for `toLowerCase`, `uuid` for `crypto.randomUUID`.
mod Sent
mod Tests
use etl_nexus.Common.{
  ℕ, zero, suc, ◌+◌, ◌||◌, String, List, [], ◌∷◌, ◌++◌, Option, none, some, if◌then◌else◌, Text,
  codes, trim, includes, starts_with, filter, non_empty, non_empty_list,
}

abbrev given : Option String → Option String
given none = none
given (some data_type) = if non_empty data_type then some data_type else none

unfoldable pub guessed_type : Text → String
unfolding includes starts_with
guessed_type lower_name =
    if includes (codes "id") lower_name
    then "UUID"
    else if includes (codes "amount") lower_name || includes (codes "price") lower_name
    then "FLOAT8"
    else if includes (codes "date") lower_name
        || includes (codes "time") lower_name
        || includes (codes "created") lower_name
    then "TIMESTAMP"
    else if starts_with (codes "is_") lower_name || starts_with (codes "has_") lower_name
    then "BOOL"
    else "VARCHAR"

unfoldable pub get_display_data_type : (Text → Text) → Option String → Text → String
unfolding guessed_type
get_display_data_type lower data_type name = elim (given data_type) [
  | some shown ↦ shown
  | none ↦ guessed_type (lower name)
]

-- a row of the editor
pub record SchemaRow : Type 0 where
  pub name : Text
  pub data_type : Text

-- `next[i] = { ...next[i], ... }`; the index of a row that is shown is in range
unfoldable pub update_row : (SchemaRow → SchemaRow) → ℕ → List SchemaRow → List SchemaRow
update_row change i [] = []
update_row change zero (row ∷ rows) = change row ∷ rows
update_row change (suc i) (row ∷ rows) = row ∷ update_row change i rows

unfoldable pub set_row_name : ℕ → Text → List SchemaRow → List SchemaRow
unfolding update_row
set_row_name i name rows = update_row (λ row. record row { name = name }) i rows

unfoldable pub set_row_type : ℕ → Text → List SchemaRow → List SchemaRow
unfolding update_row
set_row_type i data_type rows = update_row (λ row. record row { data_type = data_type }) i rows

-- `rows.filter((_, j) => j !== i)`
unfoldable pub remove_row : ℕ → List SchemaRow → List SchemaRow
remove_row i [] = []
remove_row zero (row ∷ rows) = rows
remove_row (suc i) (row ∷ rows) = row ∷ remove_row i rows

unfoldable pub add_row : List SchemaRow → List SchemaRow
add_row rows = rows ++ record { name = []; data_type = [] } ∷ []

-- a field of the PUT
pub record SentField : Type 0 where
  pub id : String
  pub name : Text
  pub data_type : Option Text
  pub ordinal_position : ℕ

abbrev pub or_null : Text → Option Text
or_null [] = none
or_null (c ∷ text) = some (c ∷ text)

-- `.map((r, i) => ...)`, from a position on
unfoldable pub number_rows : (ℕ → String) → ℕ → List SchemaRow → List SentField
number_rows uuid i [] = []
number_rows uuid i (row ∷ rows) =
    record { id = uuid i; name = row.name; data_type = or_null row.data_type; ordinal_position = i }
    ∷ number_rows uuid (i + 1) rows

-- what `handleSave` sends
unfoldable pub sent_fields : (ℕ → String) → List SchemaRow → List SentField
unfolding number_rows trim
sent_fields uuid rows = number_rows uuid 0 (filter (λ row. non_empty_list (trim row.name)) rows)
