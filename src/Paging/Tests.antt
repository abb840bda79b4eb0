-- ===== src/Paging/Tests.antt =====
-- A catalogue of 120 entries, in pages of 50.
use etl_nexus.Common.{
  ℕ, zero, suc, ◌+◌, ◌≡◌, refl, List, [], ◌∷◌, Option, none, some, length, map, take, drop,
}
use etl_nexus.Paging.{Page, load_all, get_next_page_param, all_items}
use etl_nexus.Paging.Complete.{Serves, load_all_complete}

abbrev up_to : ℕ → List ℕ
up_to zero = []
up_to (suc n) = n ∷ up_to n

abbrev slices : ℕ → ℕ → Page ℕ
slices skip limit = record {
  items = take limit (drop skip (up_to 120));
  total = length (up_to 120);
}

slices-Serves : Serves (up_to 120) slices
slices-Serves = record { items = λ skip limit. refl; total = λ skip limit. refl }

abbrev page_sizes : Option (List (Page ℕ)) → List ℕ
page_sizes none = []
page_sizes (some pages) = map (λ page. length page.items) pages

load_all_sizes : page_sizes (load_all slices 4) ≡ 50 ∷ 50 ∷ 20 ∷ []
unfolding load_all get_next_page_param
load_all_sizes = refl

load_all_complete_example :
    (pages : List (Page ℕ)) × (load_all slices (length (up_to 120) + 1) ≡ some pages)
    × (all_items pages ≡ up_to 120)
load_all_complete_example = load_all_complete (up_to 120) slices slices-Serves
