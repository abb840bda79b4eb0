-- ===== src/Catalog/Tests.antt =====
-- A catalogue of two tables.
use Prim.Native.String.{len}
use etl_nexus.Common.{
  Bool, true, String, leb, some, not, [], ◌∷◌, if◌then◌else◌, all, has, ◌≡◌, ◌≢◌, refl,
}
use etl_nexus.Workspace.{SchemaQuery, reading}
use etl_nexus.Catalog.View.{TablesQuery, tables_loaded, listed, settle_tables}
use etl_nexus.Catalog.Showing.{IsShown, settle_tables-IsShown}
use etl_nexus.Catalog.{
  TablesState, PipelineField, TableListItem, filtered_tables, toggle_all_filtered,
}
use etl_nexus.Catalog.Selecting.{toggle_all_filtered_exact}

abbrev logins : TableListItem
logins = record { namespace = "vault"; table_name = "logins" }

abbrev events : TableListItem
events = record { namespace = "core"; table_name = "events" }

toggle_all_filtered_exact_example :
    has "vault.logins" (toggle_all_filtered ("vault.logins" ∷ []) ("core.events" ∷ [])) ≡ (
      if has "vault.logins" ("vault.logins" ∷ [])
      then not (all (λ n. has n ("core.events" ∷ [])) ("vault.logins" ∷ []))
      else has "vault.logins" ("core.events" ∷ []))
toggle_all_filtered_exact_example =
    toggle_all_filtered_exact ("vault.logins" ∷ []) ("core.events" ∷ []) "vault.logins"

abbrev same : String → String
same s = s

abbrev anywhere : String → String → Bool
anywhere q name = true

abbrev by_length : String → String → Bool
by_length s t = leb (len s) (len t)

abbrev type_name : PipelineField → String
type_name field = field.name

abbrev not_read_yet : TableListItem → SchemaQuery
not_read_yet t = reading

abbrev catalogue : TablesQuery
catalogue = tables_loaded (logins ∷ events ∷ [])

abbrev core_only : TablesState
core_only = record { search = ""; team_filters = "core" ∷ []; selected_key = some "vault.logins" }

core_listed : listed same same anywhere catalogue core_only ≡ events ∷ []
unfolding filtered_tables has
core_listed = refl

listed_ne : listed same same anywhere catalogue core_only ≢ []
listed_ne e = cc (core_listed, e)

settle_tables-IsShown_example :
    let settled = settle_tables same same anywhere catalogue core_only in
    IsShown same same anywhere by_length by_length type_name not_read_yet catalogue settled
    × (settle_tables same same anywhere catalogue settled ≡ settled)
settle_tables-IsShown_example =
    settle_tables-IsShown same same anywhere by_length by_length type_name not_read_yet catalogue
      core_only listed_ne
