-- ===== src/Queries/Tests.antt =====
-- The views that a change reaches, at a query library that compares keys element by element.
use etl_nexus.Common.{true, false, some, ◌≡◌, ◌↔◌}
use etl_nexus.Queries.{
  documentation, revisions, update_settled, restore_settled, edit_saved, list_changed,
  is_invalidated,
}
use etl_nexus.Queries.Coverage.{
  Shows, update_settled-Shows, ShowsCurrent, IsProductList, edit_saved-Shows,
}
use etl_nexus.Queries.Prefixes.{
  begins, same_part, begins-prefixes, begins-only_prefixes, same_part-same, same_part-equal,
}

update_settled-Shows_example :
    ((is_invalidated
          (begins same_part)
          (update_settled "7" true).invalidated
          (revisions "7" (some documentation))
        ≡ true)
      ↔ Shows "7" (revisions "7" (some documentation)))
    × (((is_invalidated
              (begins same_part)
              (restore_settled "7" true).invalidated
              (revisions "7" (some documentation))
            ≡ true)
          ↔ Shows "7" (revisions "7" (some documentation)))
        × ((is_invalidated
                (begins same_part)
                (update_settled "7" false).invalidated
                (revisions "7" (some documentation))
              ≡ false)
            × (is_invalidated
                  (begins same_part)
                  (restore_settled "7" false).invalidated
                  (revisions "7" (some documentation))
                ≡ false)))
update_settled-Shows_example =
    update_settled-Shows (begins same_part) (begins-prefixes same_part same_part-same)
      (begins-only_prefixes same_part same_part-equal) "7" (revisions "7" (some documentation))

edit_saved-Shows_example :
    ((is_invalidated (begins same_part) (edit_saved "7") (revisions "7" (some documentation))
        ≡ true)
      ↔ ShowsCurrent "7" (revisions "7" (some documentation)))
    × ((is_invalidated (begins same_part) list_changed (revisions "7" (some documentation)) ≡ true)
        ↔ IsProductList (revisions "7" (some documentation)))
edit_saved-Shows_example =
    edit_saved-Shows (begins same_part) (begins-prefixes same_part same_part-same)
      (begins-only_prefixes same_part same_part-equal) "7" (revisions "7" (some documentation))
