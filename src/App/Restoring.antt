-- ===== src/App/Restoring.antt =====
-- A revision of a documentation that is restored in the history of the modal, and what the page shows
-- of it: RevisionHistoryPanel.tsx and DocumentationModal.tsx of
-- frontend/src/components/bento-workspace, and `useRestoreRevision` of
-- frontend/src/hooks/use-revisions.ts.
mod Tests
use etl_nexus.Common.{
  Bool, true, false, String, Option, none, some, is_some, if◌then◌else◌, Text, ◌≡◌, ◌≢◌, ◌⊎◌, inl,
  inr, refl, ◌∙◌, ap, subst, arith, Option-cases, eq_refl, ◌===◌,
}
use etl_nexus.Documentation.{
  DocProps, DocState, preview, or_empty, on_restored, preview_content, receive_props,
}
use etl_nexus.Documentation.Refetching.{receive_props-discards}
use etl_nexus.Queries.{QueryKey, pipeline_detail, restore_settled}
use etl_nexus.Queries.Coverage.{MatchesPrefixes, MatchesOnlyPrefixes, update_settled-Shows}
use etl_nexus.Revisions.{PanelState, click_confirm, handle_restore, restore_answered}
use etl_nexus.Workspace.{ProductDetail, DetailQuery, fetched}
use etl_nexus.App.{docs_of, refetch_detail, receive_detail}

-- the state of the panel, the product and the modal
pub record HistoryPage : Type 0 where
  pub panel : PanelState
  pub product : ProductDetail
  pub doc : DocState

-- `restore` stands for `restoreRevision`, `none` where the server refuses; `detail` and `matches` as
-- for an update.
module _ {Server : Type 0} (restore : String → String → Server → Option Server)
    (detail : String → Server → DetailQuery) (matches : QueryKey → QueryKey → Bool) where
  -- The page after the answer. Without a product the documentation is unmounted.
  abbrev rendered : PanelState → Option (ProductDetail × DocState) → Option HistoryPage
  rendered panel none = none
  rendered panel (some (product, doc)) =
      some (record { panel = panel; product = product; doc = doc })

  abbrev after_answer : Bool → DocState → DocState
  after_answer called s = if called then on_restored s else s

  unfoldable pub answered :
      String → HistoryPage → Server → Option Server → Server × Option HistoryPage
  unfolding restore_answered on_restored refetch_detail restore_settled receive_detail
  answered id page server none =
      (server, some (record page { panel = (restore_answered false page.panel).0 }))
  answered id page server (some next) =
      let (panel, called) = restore_answered true page.panel in
      let query =
        refetch_detail detail matches id (restore_settled id true).invalidated next
          (fetched page.product) in
      (next, rendered panel (receive_detail page.product query (after_answer called page.doc)))

  unfoldable pub after_confirm :
      String → HistoryPage → Server → PanelState → Option String → Server × Option HistoryPage
  unfolding answered
  after_confirm id page server panel none = (server, some page)
  after_confirm id page server panel (some revision_id) =
      answered id (record page { panel = panel }) server (restore id revision_id server)

  -- "Confirm" is pressed at a revision, and the restore and the fetch that follows are waited for.
  unfoldable pub press_confirm :
      String → String → HistoryPage → Server → Server × Option HistoryPage
  unfolding click_confirm after_confirm
  press_confirm id revision_id page server =
      let (panel, sent) = click_confirm page.product.can_edit revision_id page.panel in
      after_confirm id page server panel sent

-- `content` tells the revisions of a documentation, with their content, from those of a description.
-- A fetch that follows an accepted restore of a documentation answers with its content.
abbrev pub AnswersRestores :
    {Server : Type 0}
    → (String → String → Server → Option Server)
    → (String → Server → DetailQuery)
    → (String → Option (Option Text))
    → Type 0
AnswersRestores {Server} restore detail content =
    (id revision_id : String) (text : Option Text) (before after : Server)
    → content revision_id ≡ some text
    → restore id revision_id before ≡ some after
    → (product : ProductDetail) × (detail id after ≡ fetched product)
      × (product.documentation ≡ text)

-- The preview shows the content; an editor that had it already keeps its text.
abbrev pub ShowsContent : HistoryPage → Option Text → ProductDetail → DocState → Type 0
ShowsContent page content new s =
    ((page.product.documentation ≢ content)
      × (preview_content (docs_of new) s.edit_value ≡ or_empty content))
    ⊎ ((page.product.documentation ≡ content) × (s ≡ on_restored page.doc))

shows_content :
    (page : HistoryPage) (new : ProductDetail) (content : Option Text)
    → new.documentation ≡ content
    → page.doc.doc_open ≡ true
    → let s = receive_props (docs_of page.product) (docs_of new) (on_restored page.doc) in
      (s.active_tab ≡ preview) × ShowsContent page content new s
unfolding on_restored
shows_content page new content e is_open =
    elim (receive_props-discards (docs_of page.product) (docs_of new) (on_restored page.doc)
      is_open) [
        | inl (other, tab, shown) ↦
            (tab, inl (subst (λ d. page.product.documentation ≢ d) e other, shown ∙ ap or_empty e))
        | inr (same, kept) ↦ (ap (λ s. s.active_tab) kept, inr (same ∙ e, kept))
      ]

module _ {Server : Type 0} (restore : String → String → Server → Option Server)
    (detail : String → Server → DetailQuery) (matches : QueryKey → QueryKey → Bool)
    (content : String → Option (Option Text)) where
  -- What a confirmed restore of a text leaves: after a refusal the panel asks again, and nothing has changed;
  -- after an acceptance the panel is closed, and the preview is shown.
  pub data IsRestored (id revision_id : String) (text : Option Text) (page : HistoryPage)
      (server : Server) : Server × Option HistoryPage → Type 0 where
    refused :
        (panel : PanelState)
        → restore id revision_id server ≡ none
        → panel ≡ record page.panel { restoring = none }
        → IsRestored id revision_id text page server (server, some (record page { panel = panel }))
    accepted :
        (next : Server) (after : HistoryPage)
        → restore id revision_id server ≡ some next
        → after.panel ≡ record { confirm_id = none; restoring = none }
        → after.product.documentation ≡ text
        → after.doc.active_tab ≡ preview
        → ShowsContent page text after.product after.doc
        → IsRestored id revision_id text page server (next, some after)

  module _ (all_prefixes : MatchesPrefixes matches)
      (only_prefixes : MatchesOnlyPrefixes matches) where
    detail_restored :
        (id : String) (server : Server) (query : DetailQuery)
        → refetch_detail detail matches id (restore_settled id true).invalidated server query
          ≡ detail id server
    unfolding refetch_detail
    detail_restored id server query =
        let (_, (shown, _)) =
          update_settled-Shows matches all_prefixes only_prefixes id (pipeline_detail (some id)) in
        rw (shown.1 refl) refl

    answered-IsRestored :
        (id revision_id : String) (text : Option Text) (page : HistoryPage) (server : Server)
        → AnswersRestores restore detail content
        → content revision_id ≡ some text
        → page.doc.doc_open ≡ true
        → IsRestored id revision_id text page server (
            answered restore detail matches id
              (record page { panel = record page.panel { restoring = some revision_id } })
              server
              (restore id revision_id server))
    unfolding answered restore_answered receive_detail
    answered-IsRestored id revision_id text page server answers of_field is_open =
        elim (Option-cases (restore id revision_id server)) [
          | inl refusal ↦ rw (refusal, answered) (refused _ refusal refl)
          | inr (next, acceptance) ↦
              let (new, answer, shown) =
                answers id revision_id text server next of_field acceptance in
              let (tab, shows) = shows_content page new text shown is_open in
              rw (acceptance, answered, detail_restored id next (fetched page.product), answer)
                (accepted next _ acceptance refl shown tab shows)
        ]

    click_confirmed :
        (can_edit : Bool) (revision_id : String) (p : PanelState)
        → can_edit ≡ true
        → p.confirm_id ≡ some revision_id
        → p.restoring ≡ none
        → click_confirm can_edit revision_id p
          ≡ (record p { restoring = some revision_id }, some revision_id)
    unfolding click_confirm handle_restore
    click_confirmed can_edit revision_id p can asks idle = ground (arith, eq_refl revision_id)

    -- The history is open at a product that can be edited and asks whether to restore a revision of
    -- the documentation, and the server answers a fetch after an accepted restore of one with its
    -- content, where a key matches exactly the keys it begins. After "Confirm": if the server refuses, the panel asks again and
    -- nothing else has changed. If it accepts, the panel is closed and the modal is at the preview,
    -- which shows the content, unless the documentation was the same before: then the text of the
    -- editor, saved or not, is kept.
    pub press_confirm-IsRestored :
        (id revision_id : String) (text : Option Text) (page : HistoryPage) (server : Server)
        → AnswersRestores restore detail content
        → content revision_id ≡ some text
        → page.doc.doc_open ≡ true
        → page.product.can_edit ≡ true
        → page.panel.confirm_id ≡ some revision_id
        → page.panel.restoring ≡ none
        → IsRestored id revision_id text page server
            (press_confirm restore detail matches id revision_id page server)
    unfolding press_confirm after_confirm
    press_confirm-IsRestored id revision_id text page server answers of_field is_open can asks
          idle =
        rw (click_confirmed page.product.can_edit revision_id page.panel can asks idle)
          (answered-IsRestored id revision_id text page server answers of_field is_open)
