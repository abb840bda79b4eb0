-- ===== src/Paging/Complete.antt =====
-- Loading page after page brings every item of the catalogue once, in order.
use etl_nexus.Common.{
  ℕ, zero, suc, ◌+◌, ◌<◌, ◌≡◌, ◌∙◌, sym, ap, refl, subst, List, [], ◌∷◌, ◌++◌, none, some, arith,
  inl, inr, if◌then◌else◌, ltb, length, length-append, take, drop, take-append-drop, length-drop,
  drop-append, append_assoc, append-nil, Bool-cases, ltb→lt, ◌≡⟨◌⟩◌, ◌∎, length-eq-zero,
}
use native.Mathlib.Nat.{zero-add}
use etl_nexus.Paging.{
  Page, page_limit, loaded_from, get_next_page_param, all_items, load_from, load_all,
}

module _ {ℓ} {A : Type ℓ} where
  all_items-append :
      (pages : List (Page A)) (page : Page A)
      → all_items (pages ++ page ∷ []) ≡ all_items pages ++ page.items
  all_items-append [] page = append-nil _
  all_items-append (p ∷ pages) page =
      ap (λ xs. p.items ++ xs) (all_items-append pages page)
      ∙ sym (append_assoc p.items (all_items pages) page.items)

  loaded_from_lem :
      (sum : ℕ) (pages : List (Page A)) → loaded_from sum pages ≡ sum + length (all_items pages)
  unfolding loaded_from
  loaded_from_lem sum [] = omega arith
  loaded_from_lem sum (page ∷ pages) = omega (
    arith,
    loaded_from_lem (sum + length page.items) pages,
    length-append page.items (all_items pages),
  )

  get_next_page_param_lem :
      (page : Page A) (pages : List (Page A))
      → get_next_page_param page pages ≡ (
          if ltb (length (all_items pages)) page.total
          then some (length (all_items pages))
          else none)
  unfolding get_next_page_param
  get_next_page_param_lem page pages = rw (loaded_from_lem 0 pages ∙ zero-add _)

  -- The server answers with the slice of the catalogue that is asked for, and with its size.
  pub record Serves (catalogue : List A) (fetch : ℕ → ℕ → Page A) : Type ℓ where
    pub items : (skip limit : ℕ) → (fetch skip limit).items ≡ take limit (drop skip catalogue)
    pub total : (skip limit : ℕ) → (fetch skip limit).total ≡ length catalogue

  module _ (catalogue : List A) (fetch : ℕ → ℕ → Page A) (server : Serves catalogue fetch) where
    -- The page after those so far holds the next items.
    next_page :
        (pages : List (Page A)) (rest : List A)
        → all_items pages ++ rest ≡ catalogue
        → all_items (pages ++ fetch (length (all_items pages)) page_limit ∷ [])
            ++ drop page_limit rest
          ≡ catalogue
    next_page pages rest split =
        all_items (pages ++ fetch (length (all_items pages)) page_limit ∷ [])
          ++ drop page_limit rest
        ≡⟨ ap (λ xs. xs ++ drop page_limit rest) (all_items-append pages _) ⟩
          (all_items pages ++ (fetch (length (all_items pages)) page_limit).items)
          ++ drop page_limit rest
        ≡⟨ ap (λ xs. (all_items pages ++ xs) ++ drop page_limit rest) (server.items _ _) ⟩
          (all_items pages ++ take page_limit (drop (length (all_items pages)) catalogue))
          ++ drop page_limit rest
        ≡⟨ ap
            (λ xs.
              (all_items pages ++ take page_limit (drop (length (all_items pages)) xs))
              ++ drop page_limit rest)
            (sym split) ⟩
          (all_items pages
            ++ take page_limit (drop (length (all_items pages)) (all_items pages ++ rest)))
          ++ drop page_limit rest
        ≡⟨ ap (λ xs. (all_items pages ++ take page_limit xs) ++ drop page_limit rest)
            (drop-append (all_items pages) rest) ⟩
          (all_items pages ++ take page_limit rest) ++ drop page_limit rest
        ≡⟨ append_assoc (all_items pages) _ _ ⟩
          all_items pages ++ (take page_limit rest ++ drop page_limit rest)
        ≡⟨ ap (λ xs. all_items pages ++ xs) (take-append-drop page_limit rest) ⟩
          all_items pages ++ rest
        ≡⟨ split ⟩ catalogue ∎

    load_from_complete :
        (fuel : ℕ) (pages : List (Page A)) (rest : List A)
        → all_items pages ++ rest ≡ catalogue
        → length rest < fuel
        → (all : List (Page A)) × (load_from fetch fuel pages (length (all_items pages)) ≡ some all)
          × (all_items all ≡ catalogue)
    unfolding load_from
    load_from_complete zero pages rest split enough = absurd (omega arith)
    load_from_complete (suc fuel) pages rest split enough =
        let page = fetch (length (all_items pages)) page_limit in
        let pages' = pages ++ page ∷ [] in
        let split' : all_items pages' ++ drop page_limit rest ≡ catalogue =
          next_page pages rest split in
        let sizes : length (all_items pages') + length (drop page_limit rest) ≡ page.total =
          sym (length-append (all_items pages') _) ∙ ap length split' ∙ sym (server.total _ _) in
        elim (Bool-cases (ltb (length (all_items pages')) page.total)) [
          | inl more ↦
              rw (get_next_page_param_lem page pages', more, load_from)
                (load_from_complete fuel pages' (drop page_limit rest) split'
                  (omega (arith, ltb→lt _ _ more, length-drop page_limit rest)))
          | inr last ↦
              rw (get_next_page_param_lem page pages', last, load_from)
                (
                  pages',
                  refl,
                  sym (append-nil _)
                      ∙ subst (λ xs. all_items pages' ++ xs ≡ catalogue)
                          (length-eq-zero (drop page_limit rest) (ground (arith, sizes))) split',
                )
        ]

  -- If the server answers with the slice that is asked for, fetching pages as long as there is a
  -- next one ends within one more page than there are items, and the pages hold the catalogue:
  -- every item once, in the server's order.
  pub load_all_complete :
      (catalogue : List A) (fetch : ℕ → ℕ → Page A)
      → Serves catalogue fetch
      → (pages : List (Page A)) × (load_all fetch (length catalogue + 1) ≡ some pages)
        × (all_items pages ≡ catalogue)
  unfolding load_all
  load_all_complete catalogue fetch server =
      load_from_complete catalogue fetch server (length catalogue + 1) [] catalogue refl
        (omega arith)
