-- ===== src/Stores/NavigationStore/Sync.antt =====
-- The active tab and the hash of the window.
use etl_nexus.Common.{
  true, List, [], ◌∷◌, Option, none, some, ◌≡◌, refl, arith, inl, inr, Bool-cases, Text,
}
use etl_nexus.Stores.NavigationStore.{
  Tab, data_products, tables, ai, build_hash, parse_hash, location_hash, Breadcrumb, Navigation,
  initial_navigation, set_active_tab, push_breadcrumb, pop_breadcrumb, pop_from, go_back,
  clear_breadcrumbs, on_hash_change, same_tab,
}

-- Reading back the hash of a tab gives the tab.
parse_hash-build_hash : (tab : Tab) → parse_hash (location_hash (build_hash tab)) ≡ tab
unfolding parse_hash
parse_hash-build_hash data_products = refl
parse_hash-build_hash tables = refl
parse_hash-build_hash ai = refl

-- The hash of the window names the active tab.
abbrev pub IsSynced : Navigation → Type 0
IsSynced s = parse_hash s.hash ≡ s.active_tab

-- What the user or another part of the application may do.
pub data Move : Navigation → Navigation → Type 0 where
  select : (tab : Tab) (s : Navigation) → Move s (set_active_tab tab s)
  push : (crumb : Breadcrumb) (s : Navigation) → Move s (push_breadcrumb crumb s)
  pop : (s : Navigation) → Move s (pop_breadcrumb s)
  clear : (s : Navigation) → Move s (clear_breadcrumbs s)
  -- a new hash, by the back button or by `setSelectedProductId`, and then the listener
  go_to : (hash : Text) (s : Navigation) → Move s (on_hash_change (record s { hash = hash }))

pub data Moves (s : Navigation) : Navigation → Type 0 where
  here : Moves s s
  then_move : {t u : Navigation} → Moves s t → Move t u → Moves s u

same_tab-true : (a b : Tab) → same_tab a b ≡ true → a ≡ b
same_tab-true a b h = ground arith

on_hash_change-IsSynced : (s : Navigation) → IsSynced (on_hash_change s)
unfolding on_hash_change
on_hash_change-IsSynced s = elim (Bool-cases (same_tab (parse_hash s.hash) s.active_tab)) [
  | inl same ↦ rw (same, on_hash_change) (same_tab-true _ _ same)
  | inr other ↦ rw (other, on_hash_change) (parse_hash-build_hash (parse_hash s.hash))
]

go_back-IsSynced :
    (target : Option Breadcrumb) (remaining : List Breadcrumb) (s : Navigation)
    → IsSynced s
    → IsSynced (go_back target remaining s)
unfolding go_back
go_back-IsSynced none remaining s h = h
go_back-IsSynced (some target) remaining s h = parse_hash-build_hash target.tab

pop_from-IsSynced :
    (crumbs : List Breadcrumb) (s : Navigation) → IsSynced s → IsSynced (pop_from crumbs s)
pop_from-IsSynced [] s h = h
pop_from-IsSynced (crumb ∷ crumbs) s h = go_back-IsSynced _ _ s h

Move-IsSynced : {s t : Navigation} → Move s t → IsSynced s → IsSynced t
unfolding set_active_tab push_breadcrumb clear_breadcrumbs pop_breadcrumb
Move-IsSynced (select tab s) h = parse_hash-build_hash tab
Move-IsSynced (push crumb s) h = h
Move-IsSynced (pop s) h = pop_from-IsSynced s.breadcrumbs s h
Move-IsSynced (clear s) h = h
Move-IsSynced (go_to hash s) h = on_hash_change-IsSynced (record s { hash = hash })

-- From the page load on, whatever hash it starts with and whatever is done, the hash of the window
-- names the active tab once its listener has run.
pub Moves-IsSynced :
    (hash : Text) {t : Navigation}
    → Moves (initial_navigation hash) t
    → parse_hash t.hash ≡ t.active_tab
unfolding initial_navigation
Moves-IsSynced hash here = refl
Moves-IsSynced hash (then_move moves move) = Move-IsSynced move (Moves-IsSynced hash moves)
