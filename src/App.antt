-- ===== src/App.antt =====
-- The parts of frontend/src/App.tsx together: the command palette opens a product over the registry
-- and the page of the product, and a documentation saved at that page comes back through the server.
mod Browsing
mod Expiry
mod Opening
mod Restoring
mod Saving
mod Tests
use etl_nexus.Common.{Bool, true, false, String, List, Option, none, some, if◌then◌else◌, Text}
use etl_nexus.CommandPalette.{Palette, select_result}
use etl_nexus.Documentation.{DocProps, DocState, click_save, receive_props}
use etl_nexus.Layout.{is_tab}
use etl_nexus.Queries.{QueryKey, pipeline_detail, update_settled, is_invalidated}
use etl_nexus.Registry.{ListItem, filtered_products, grouped_products, selection_effects}
use etl_nexus.Stores.NavigationStore.{Navigation, data_products}
use etl_nexus.Workspace.{ProductDetail, DetailQuery, loading, failed, fetched}

-- what the registry filters its list by, and the favourites
pub record ListOptions : Type 0 where
  pub teams : List String
  pub schedules : List String
  pub favorite_ids : List String

module _ (le : String → String → Bool) (options : ListOptions) where
  -- the list that the registry shows of the products it has loaded
  unfoldable pub list_shown : List ListItem → List ListItem
  unfolding filtered_products
  list_shown products = filtered_products options.teams options.schedules products

  -- A render of the registry with these products: its effects. `none` is an exception.
  unfoldable pub render_registry : List ListItem → Option String → Option (Option String)
  unfolding list_shown grouped_products selection_effects
  render_registry products selected =
      let filtered = list_shown products in
      selection_effects (grouped_products le options.favorite_ids filtered) filtered selected

  -- Both are rendered only at the tab of the products.
  unfoldable pub render_content :
      List ListItem → Navigation → Option String → Option (Option String)
  unfolding render_registry
  render_content products nav selected =
      let effects = render_registry products selected in
      if is_tab nav.active_tab data_products then effects else some selected

  -- A result of the palette is chosen, and the content is rendered with the products loaded by then.
  unfoldable pub open_result :
      List ListItem
      → String
      → Palette
      → Navigation
      → Palette × (Navigation × Option (Option String))
  unfolding select_result render_content
  open_result products product_id p nav =
      let (closed, (there, selected)) = select_result product_id p nav in
      (closed, (there, render_content products there selected))

-- what the page hands to the documentation, while no update is pending
abbrev pub docs_of : ProductDetail → DocProps
docs_of product = record {
  documentation = product.documentation;
  is_saving = false;
  can_edit = product.can_edit;
}

-- `detail` stands for the answer to `fetchPipelineDetail`; `matches` for the query library's comparison.
module _ {Server : Type 0} (detail : String → Server → DetailQuery)
    (matches : QueryKey → QueryKey → Bool) where
  -- the query of the page after a mutation has invalidated these keys
  unfoldable pub refetch_detail : String → List QueryKey → Server → DetailQuery → DetailQuery
  unfolding is_invalidated
  refetch_detail id keys server query =
      if is_invalidated matches keys (pipeline_detail (some id)) then detail id server else query

-- The page is rendered with another answer; without a product the documentation is unmounted.
unfoldable pub receive_detail :
    ProductDetail → DetailQuery → DocState → Option (ProductDetail × DocState)
unfolding receive_props
receive_detail old loading s = none
receive_detail old failed s = none
receive_detail old (fetched new) s = some (new, receive_props (docs_of old) (docs_of new) s)

-- `update` stands for `updatePipeline` with a documentation, and is `none` where the server refuses;
-- `detail` for the answer to `fetchPipelineDetail`; `matches` for the query library's comparison.
module _ {Server : Type 0} (update : String → Text → Server → Option Server)
    (detail : String → Server → DetailQuery) (matches : QueryKey → QueryKey → Bool) where
  unfoldable pub settled : String → Server → DetailQuery → Option Server → Server × DetailQuery
  unfolding refetch_detail update_settled
  settled id server query none =
      (server, refetch_detail detail matches id (update_settled id false).invalidated server query)
  settled id server query (some next) =
      (next, refetch_detail detail matches id (update_settled id true).invalidated next query)

  -- `updatePipeline({ documentation })`, and what follows from it
  unfoldable pub settle_update : String → Text → Server → DetailQuery → Server × DetailQuery
  unfolding settled
  settle_update id text server query = settled id server query (update id text server)

  unfoldable pub after_save :
      String
      → ProductDetail
      → Server
      → DocState
      → Option Text
      → Server × Option (ProductDetail × DocState)
  unfolding settle_update receive_detail
  after_save id product server s none = (server, some (product, s))
  after_save id product server s (some text) =
      let (next, query) = settle_update id text server (fetched product) in
      (next, receive_detail product query s)

  -- The button "Save" is pressed, and the update and the fetch that follows are waited for.
  unfoldable pub press_save :
      String → ProductDetail → Server → DocState → Server × Option (ProductDetail × DocState)
  unfolding click_save after_save
  press_save id product server s =
      let (next, saved) = click_save (docs_of product) s in after_save id product server next saved
