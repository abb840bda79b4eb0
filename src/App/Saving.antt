-- ===== src/App/Saving.antt =====
-- A documentation that is saved, and what the page shows of it afterwards.
use etl_nexus.Common.{
  Bool, true, false, String, Option, none, some, Text, ◌≡◌, inl, inr, refl, subst, ap, arith,
  Option-cases,
}
use etl_nexus.Documentation.{
  DocProps, DocState, edit, or_empty, click_card, click_save, handle_save, on_save, receive_props,
}
use etl_nexus.Queries.{QueryKey, pipeline_detail, update_settled}
use etl_nexus.Queries.Coverage.{MatchesPrefixes, MatchesOnlyPrefixes, update_settled-Shows}
use etl_nexus.Workspace.{ProductDetail, DetailQuery, fetched}
use etl_nexus.App.{
  docs_of, receive_detail, refetch_detail, settled, settle_update, after_save, press_save,
}

-- the modal, opened again from the card
abbrev pub Reopens : ProductDetail → DocState → Text → Type 0
Reopens product s text = (s.doc_open ≡ false) × ((click_card (docs_of product) s).edit_value ≡ text)

-- A fetch that follows an accepted update answers with the text.
abbrev pub AnswersUpdates :
    {Server : Type 0}
    → (String → Text → Server → Option Server)
    → (String → Server → DetailQuery)
    → Type 0
AnswersUpdates {Server} update detail =
    (id : String) (text : Text) (before after : Server)
    → update id text before ≡ some after
    → (product : ProductDetail) × (detail id after ≡ fetched product)
      × (product.documentation ≡ some text)

-- After the same documentation the text of a closed editor is kept; the next opening takes it anyway.
reopened :
    (product : ProductDetail) (s : DocState)
    → s.doc_open ≡ false
    → Reopens product s (or_empty product.documentation)
unfolding click_card
reopened product s closed = (closed, ground arith)

receive_props-closed :
    (old new : DocProps) (s : DocState)
    → s.doc_open ≡ false
    → (receive_props old new s).doc_open ≡ false
unfolding receive_props
receive_props-closed old new s closed = ground arith

-- whatever was rendered before, the modal is opened again with the documentation of the product
received :
    (old new : ProductDetail) (text : Text) (s : DocState)
    → s.doc_open ≡ false
    → or_empty new.documentation ≡ text
    → Reopens new (receive_props (docs_of old) (docs_of new) s) text
received old new text s closed e =
    let next = receive_props (docs_of old) (docs_of new) s in
    subst (Reopens new next) e
      (reopened new next (receive_props-closed (docs_of old) (docs_of new) s closed))

click_save-saves :
    (product : ProductDetail) (s : DocState)
    → product.can_edit ≡ true
    → s.doc_open ≡ true
    → s.active_tab ≡ edit
    → click_save (docs_of product) s ≡ ((handle_save s).0, some s.edit_value)
unfolding click_save handle_save
click_save-saves product s can is_open editing = rw (can, is_open, editing) refl

module _ {Server : Type 0} (update : String → Text → Server → Option Server)
    (detail : String → Server → DetailQuery) (matches : QueryKey → QueryKey → Bool) where
  -- What a save of a text leaves, both times with the modal closed: a refusal leaves the server and
  -- the product as they were, and the text is gone; an acceptance shows the text.
  pub data IsSaved (id : String) (product : ProductDetail) (server : Server) (text : Text)
      : Server × Option (ProductDetail × DocState) → Type 0 where
    refused :
        (s : DocState)
        → update id text server ≡ none
        → Reopens product s (or_empty product.documentation)
        → IsSaved id product server text (server, some (product, s))
    accepted :
        (next : Server) (new : ProductDetail) (s : DocState)
        → update id text server ≡ some next
        → new.documentation ≡ some text
        → Reopens new s text
        → IsSaved id product server text (next, some (new, s))

  module _ (all_prefixes : MatchesPrefixes matches)
      (only_prefixes : MatchesOnlyPrefixes matches) where
    detail_kept :
        (id : String) (server : Server) (query : DetailQuery)
        → refetch_detail detail matches id (update_settled id false).invalidated server query
          ≡ query
    unfolding refetch_detail
    detail_kept id server query =
        let (_, (_, (kept, _))) =
          update_settled-Shows matches all_prefixes only_prefixes id (pipeline_detail (some id)) in
        rw kept refl

    detail_fetched :
        (id : String) (server : Server) (query : DetailQuery)
        → refetch_detail detail matches id (update_settled id true).invalidated server query
          ≡ detail id server
    unfolding refetch_detail
    detail_fetched id server query =
        let (shown, _) =
          update_settled-Shows matches all_prefixes only_prefixes id (pipeline_detail (some id)) in
        rw (shown.1 refl) refl

    settle_refused :
        (id : String) (text : Text) (server : Server) (query : DetailQuery)
        → update id text server ≡ none
        → settle_update update detail matches id text server query ≡ (server, query)
    unfolding settle_update settled
    settle_refused id text server query refusal =
        rw (refusal, settled, detail_kept id server query) refl

    settle_accepted :
        (id : String) (text : Text) (server next : Server) (query : DetailQuery)
        → update id text server ≡ some next
        → settle_update update detail matches id text server query ≡ (next, detail id next)
    unfolding settle_update settled
    settle_accepted id text server next query acceptance =
        rw (acceptance, settled, detail_fetched id next query) refl

    after_save-IsSaved :
        (id : String) (product : ProductDetail) (server : Server) (s : DocState) (text : Text)
        → AnswersUpdates update detail
        → s.doc_open ≡ false
        → IsSaved id product server text
            (after_save update detail matches id product server s (some text))
    unfolding after_save receive_detail
    after_save-IsSaved id product server s text answers closed =
        elim (Option-cases (update id text server)) [
          | inl refusal ↦ rw (settle_refused id text server (fetched product) refusal) (
              refused (receive_props (docs_of product) (docs_of product) s) refusal
                (received product product _ s closed refl))
          | inr (next, acceptance) ↦
              let (new, answer, shown) = answers id text server next acceptance in
              rw (settle_accepted id text server next (fetched product) acceptance, answer)
                (accepted next new (receive_props (docs_of product) (docs_of new) s) acceptance
                  shown (received product new text s closed (ap or_empty shown)))
        ]

    -- A product that can be edited is open in the editor, and the server answers a fetch after an
    -- accepted update with its text, where a key matches exactly the keys it begins. After "Save"
    -- the modal is closed. If the server accepts, the page is given the text by the fetch that
    -- follows, and the modal, opened again, starts with that text; if it refuses, server and product
    -- are as before, and the modal starts with the old documentation: the text typed is lost.
    pub press_save-IsSaved :
        (id : String) (product : ProductDetail) (server : Server) (s : DocState)
        → AnswersUpdates update detail
        → product.can_edit ≡ true
        → s.doc_open ≡ true
        → s.active_tab ≡ edit
        → IsSaved id product server s.edit_value
            (press_save update detail matches id product server s)
    unfolding press_save
    press_save-IsSaved id product server s answers can is_open editing =
        rw (click_save-saves product s can is_open editing) (
          after_save-IsSaved id product server (handle_save s).0 s.edit_value answers
            (unfold handle_save on_save in refl))
