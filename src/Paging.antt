-- ===== src/Paging.antt =====
-- frontend/src/hooks/use-data-products.ts: the infinite query behind the product registry, with
-- `fetchPipelines` of frontend/src/api/pipelines.ts. The server is a function from skip and limit to a page.
pub mod Complete
mod Tests
use etl_nexus.Common.{
  ℕ, zero, suc, ◌+◌, List, [], ◌∷◌, ◌++◌, Option, none, some, if◌then◌else◌, ltb, length,
}

-- `PipelineListResponse`
pub record Page {ℓ} (A : Type ℓ) : Type ℓ where
  pub items : List A
  pub total : ℕ

-- the page size that the hook passes
abbrev pub page_limit : ℕ
page_limit = 50

module _ {ℓ} {A : Type ℓ} where
  -- `allPages.reduce((sum, p) => sum + p.items.length, 0)`
  pub loaded_from : ℕ → List (Page A) → ℕ
  loaded_from sum [] = sum
  loaded_from sum (page ∷ pages) = loaded_from (sum + length page.items) pages

  unfoldable pub get_next_page_param : Page A → List (Page A) → Option ℕ
  unfolding loaded_from
  get_next_page_param last_page all_pages =
      let loaded = loaded_from 0 all_pages in
      if ltb loaded last_page.total then some loaded else none

  -- `data.pages.flatMap((p) => p.items)`
  abbrev pub all_items : List (Page A) → List A
  all_items [] = []
  all_items (page ∷ pages) = page.items ++ all_items pages

  module _ (fetch : ℕ → ℕ → Page A) where
    -- The pages after `fetchNextPage` is called as long as `hasNextPage` holds, from the page that
    -- starts at `skip` on; `none` means that the fuel ran out.
    unfoldable pub load_from : ℕ → List (Page A) → ℕ → Option (List (Page A))
    load_from zero pages skip = none
    load_from (suc fuel) pages skip =
        let page = fetch skip page_limit in
        let pages' = pages ++ page ∷ [] in
        elim (get_next_page_param page pages') [
          | none ↦ some pages'
          | some next ↦ load_from fuel pages' next
        ]

    -- from `initialPageParam: 0`
    unfoldable pub load_all : ℕ → Option (List (Page A))
    unfolding load_from
    load_all fuel = load_from fuel [] 0
