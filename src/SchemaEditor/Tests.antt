-- ===== src/SchemaEditor/Tests.antt =====
-- Rows that are edited and sent, and the types that are shown.
use etl_nexus.Common.{ℕ, zero, suc, String, List, [], ◌∷◌, map, codes, trim, ◌≡◌, refl}
use etl_nexus.SchemaEditor.{SchemaRow, sent_fields, guessed_type}

abbrev rows : List SchemaRow
rows =
    record { name = codes "order"; data_type = codes "UUID" }
    ∷ record { name = codes "  "; data_type = codes "DATE" }
    ∷ record { name = codes "total"; data_type = [] }
    ∷ []

abbrev ids : ℕ → String
ids zero = "a"
ids (suc i) = "b"

sent_names : map (λ f. f.name) (sent_fields ids rows) ≡ codes "order" ∷ codes "total" ∷ []
unfolding sent_fields trim
sent_names = refl

-- a name that holds the letters "id" is guessed to be an identifier
paid_amount_type : guessed_type (codes "paid_amount") ≡ "UUID"
unfolding guessed_type
paid_amount_type = refl
