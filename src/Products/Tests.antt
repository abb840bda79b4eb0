-- ===== src/Products/Tests.antt =====
-- A form, and a server that refuses tables.
use etl_nexus.Common.{false, String, List, [], ◌∷◌, some, refl}
use etl_nexus.Products.{
  CreateForm, create_request, click_create, click_cancel, EditForm, PatchBody, Answer, done,
  refused,
}
use etl_nexus.Products.Creating.{
  CreateRun, mounted, clicked, cancelled, IsSingle, CreateRun-IsSingle,
}

abbrev filled : CreateForm
filled = record {
  name = "Logins";
  description = "";
  documentation = "";
  schedule_type = "daily";
  tables = "vault.logins" ∷ [];
  team = "vault";
  is_pending = false;
}

abbrev same : String → String
same text = text

abbrev two_teams : List String
two_teams = "vault" ∷ "core" ∷ []

-- the form is sent, and then cancelled before the call is settled
abbrev at_sent : CreateForm
at_sent = (click_create same two_teams filled).1

abbrev a_run : CreateRun same two_teams (click_cancel at_sent) (create_request filled ∷ [])
unfolding click_create
a_run = cancelled (clicked (mounted filled refl))

CreateRun-IsSingle_example :
    IsSingle same two_teams (click_cancel at_sent) (create_request filled ∷ [])
CreateRun-IsSingle_example = CreateRun-IsSingle same two_teams a_run

abbrev edited : EditForm
edited = record {
  name = "Logins";
  schedule_type = "";
  documentation = "";
  tables = "vault.gone" ∷ [];
  confirm_delete = false;
}

-- the server keeps the name of the product
abbrev patch_name : PatchBody → String → Answer String
patch_name body name = done body.name

abbrev refuse_tables : List String → String → Answer String
refuse_tables tables name = refused (some "unknown table") name

abbrev delete_name : String → Answer String
delete_name name = done "deleted"
