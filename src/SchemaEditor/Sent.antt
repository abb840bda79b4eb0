-- ===== src/SchemaEditor/Sent.antt =====
-- What the schema editor sends.
use etl_nexus.Common.{
  ℕ, ◌+◌, Bool, true, String, List, [], ◌∷◌, map, trim, filter, non_empty_list, All, Bool-cases,
  inl, inr, ◌≡◌, refl, ap,
}
use etl_nexus.SchemaEditor.{SchemaRow, SentField, or_null, number_rows, sent_fields}

-- the numbers from `i` on, one for each row
abbrev pub positions : ℕ → List SchemaRow → List ℕ
positions i [] = []
positions i (row ∷ rows) = i ∷ positions (i + 1) rows

abbrev pub is_named : SchemaRow → Bool
is_named row = non_empty_list (trim row.name)

-- The fields are the rows that have a name, in their order, numbered from 0 on.
pub record IsSent (rows : List SchemaRow) (fields : List SentField) : Type 0 where
  pub named : List SchemaRow
  pub kept : named ≡ filter is_named rows
  pub names : map (λ f. f.name) fields ≡ map (λ row. row.name) named
  pub types : map (λ f. f.data_type) fields ≡ map (λ row. or_null row.data_type) named
  pub numbered : map (λ f. f.ordinal_position) fields ≡ positions 0 named
  pub non_blank : All (λ f. non_empty_list (trim f.name) ≡ true) fields

module _ (uuid : ℕ → String) where
  number_rows-names :
      (i : ℕ) (rows : List SchemaRow)
      → map (λ f. f.name) (number_rows uuid i rows) ≡ map (λ row. row.name) rows
  unfolding number_rows
  number_rows-names i [] = refl
  number_rows-names i (row ∷ rows) = ap (λ names. row.name ∷ names) (number_rows-names (i + 1) rows)

  number_rows-types :
      (i : ℕ) (rows : List SchemaRow)
      → map (λ f. f.data_type) (number_rows uuid i rows) ≡ map (λ row. or_null row.data_type) rows
  unfolding number_rows
  number_rows-types i [] = refl
  number_rows-types i (row ∷ rows) =
      ap (λ types. or_null row.data_type ∷ types) (number_rows-types (i + 1) rows)

  number_rows-positions :
      (i : ℕ) (rows : List SchemaRow)
      → map (λ f. f.ordinal_position) (number_rows uuid i rows) ≡ positions i rows
  unfolding number_rows
  number_rows-positions i [] = refl
  number_rows-positions i (row ∷ rows) =
      ap (λ later. i ∷ later) (number_rows-positions (i + 1) rows)

  number_rows-named :
      (i : ℕ) (rows : List SchemaRow)
      → All (λ row. is_named row ≡ true) rows
      → All (λ f. non_empty_list (trim f.name) ≡ true) (number_rows uuid i rows)
  unfolding number_rows
  number_rows-named i [] h = tt
  number_rows-named i (row ∷ rows) (h, hs) = (h, number_rows-named (i + 1) rows hs)

  filter-named : (rows : List SchemaRow) → All (λ row. is_named row ≡ true) (filter is_named rows)
  filter-named [] = tt
  filter-named (row ∷ rows) = elim (Bool-cases (is_named row)) [
    | inl named ↦ rw named (named, filter-named rows)
    | inr blank ↦ rw blank (filter-named rows)
  ]

  -- Whatever the rows of the editor: what is sent are the rows whose name is not blank, in their
  -- order, with the type or none where it is empty, and with consecutive positions from 0 on.
  pub sent_fields-IsSent : (rows : List SchemaRow) → IsSent rows (sent_fields uuid rows)
  unfolding sent_fields
  sent_fields-IsSent rows = record {
    named = filter is_named rows;
    kept = refl;
    names = number_rows-names 0 (filter is_named rows);
    types = number_rows-types 0 (filter is_named rows);
    numbered = number_rows-positions 0 (filter is_named rows);
    non_blank = number_rows-named 0 (filter is_named rows) (filter-named rows);
  }
