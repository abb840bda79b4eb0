-- ===== src/App/Restoring/Tests.antt =====
-- A revision is restored at a server that keeps one documentation.
use etl_nexus.Common.{
  String, [], Option, none, some, true, false, Text, codes, refl, if◌then◌else◌, ◌===◌, Bool-cases,
  inl, inr, arith, ◌≡◌,
}
use etl_nexus.Documentation.{history}
use etl_nexus.Queries.Prefixes.{
  begins, same_part, begins-prefixes, begins-only_prefixes, same_part-same, same_part-equal,
}
use etl_nexus.Workspace.{ProductDetail, DetailQuery, fetched}
use etl_nexus.App.Restoring.{
  HistoryPage, AnswersRestores, IsRestored, press_confirm, press_confirm-IsRestored,
}

abbrev with_text : Text → ProductDetail
with_text text = record {
  id = "7";
  name = "Sales";
  description = none;
  tables = [];
  documentation = some text;
  team = none;
  schedule_type = none;
  can_edit = true;
  default_import_snippet = "read";
}

abbrev first_version : Text
first_version = codes "first"

-- the server has a revision of the documentation, "1", and others of the description
abbrev back_to_first : String → String → Text → Option Text
back_to_first id revision_id server =
    if revision_id === "1" then some first_version else some server

abbrev detail : String → Text → DetailQuery
detail id server = fetched (with_text server)

abbrev contents : String → Option (Option Text)
contents revision_id = if revision_id === "1" then some (some first_version) else none

back_to_first-AnswersRestores : AnswersRestores back_to_first detail contents
back_to_first-AnswersRestores id revision_id text before after of_field e =
    elim (Bool-cases (revision_id === "1")) [
      | inl first ↦
          let restored : first_version ≡ after = ground arith in
          let known : some first_version ≡ text = ground arith in (with_text after, refl, (cc))
      | inr other ↦ absurd (ground arith)
    ]

abbrev second_version : Text
second_version = codes "second"

abbrev at_history : HistoryPage
at_history = record {
  panel = record { confirm_id = some "1"; restoring = none };
  product = with_text second_version;
  doc = record {
    doc_open = true;
    active_tab = history;
    edit_value = second_version;
    cheatsheet_open = false;
  };
}

press_confirm-IsRestored_example :
    IsRestored back_to_first detail
      (begins same_part)
      contents
      "7"
      "1"
      (some first_version)
      at_history
      second_version
      (press_confirm back_to_first detail (begins same_part) "7" "1" at_history second_version)
press_confirm-IsRestored_example =
    press_confirm-IsRestored back_to_first detail (begins same_part) contents
      (begins-prefixes same_part same_part-same) (begins-only_prefixes same_part same_part-equal)
      "7" "1" (some first_version) at_history second_version back_to_first-AnswersRestores refl refl
      refl refl refl
