-- ===== src/CommandPalette/Pointing.antt =====
-- Which result the palette points at, and whether a search runs.
use etl_nexus.Common.{
  ℕ, zero, suc, ◌+◌, ◌-◌, ◌≤◌, ◌<◌, min, max, ltb, true, not, String, List, [], ◌∷◌, ◌++◌, Option,
  none, some, non_empty, if-holds, ltb→lt, length, get_elem?, has, ◌≡◌, ◌≢◌, refl, arith,
}
use etl_nexus.Stores.NavigationStore.{Navigation}
use etl_nexus.CommandPalette.{
  SearchResult, Palette, initial_palette, search_effect, open_effect, toggle_open, press_escape,
  close, type_query, fire_timer, receive, arrow_down, arrow_up, hover, active_result, select_result,
  press_enter, send_search, enter_result,
}

module _ (trim : String → String) where
  -- What the user, the timer and the server do. An answer belongs to some search that is in flight.
  pub data PaletteStep : Palette → Palette → Type 0 where
    toggled : (p : Palette) → PaletteStep p (toggle_open trim p)
    escaped : (p : Palette) → PaletteStep p (press_escape p)
    typed : (query : String) (p : Palette) → PaletteStep p (type_query trim query p)
    fired : (p : Palette) → PaletteStep p (fire_timer p)
    answered :
        (query : String) (answer : Option (List SearchResult)) (p : Palette)
        → has query p.in_flight ≡ true
        → PaletteStep p (receive query answer p)
    down : (p : Palette) → PaletteStep p (arrow_down p)
    up : (p : Palette) → PaletteStep p (arrow_up p)
    hovered : (idx : ℕ) (p : Palette) → PaletteStep p (hover idx p)
    entered :
        (p : Palette) (nav : Navigation) (selected : Option String)
        → PaletteStep p (press_enter p nav selected).0
    backdrop_clicked : (p : Palette) → PaletteStep p (close p)
    result_clicked :
        (idx : ℕ) (r : SearchResult) (p : Palette) (nav : Navigation)
        → get_elem? p.results idx ≡ some r
        → PaletteStep p (select_result r.product_id p nav).0

  pub data PaletteRun : Palette → Type 0 where
    mounted : PaletteRun initial_palette
    and_then : {p q : Palette} → PaletteRun p → PaletteStep p q → PaletteRun q

-- Where there are results, one of them is pointed at.
abbrev pub Points : ℕ → List SearchResult → Type 0
Points next [] = Unit
Points next (r ∷ rs) = (0 < next) × (next ≤ length (r ∷ rs))

Points-one : (results : List SearchResult) → Points 1 results
Points-one [] = tt
Points-one (r ∷ rs) = omega arith

Points-down :
    (next : ℕ) (results : List SearchResult)
    → Points next results
    → Points (min (next + 1) (length results)) results
Points-down next [] h = tt
Points-down next (r ∷ rs) h = omega arith

Points-up :
    (next : ℕ) (results : List SearchResult)
    → Points next results
    → Points (max (next - 1) 1) results
Points-up next [] h = tt
Points-up next (r ∷ rs) h = omega arith

Points-at :
    (idx : ℕ) (results : List SearchResult) → idx < length results → Points (idx + 1) results
Points-at idx [] h = tt
Points-at idx (r ∷ rs) h = omega arith

-- Where results are listed, the active index is that of one of them, and `loading` holds only while
-- some search waits for its answer.
pub record IsPointing (p : Palette) : Type 0 where
  pub points : Points p.active_next p.results
  pub loads : p.loading ≡ true → p.in_flight ≢ []

search_effect-IsPointing :
    (trim : String → String) (p : Palette) → IsPointing p → IsPointing (search_effect trim p)
unfolding search_effect
search_effect-IsPointing trim p h =
    if-holds IsPointing (not p.is_open) (λ _. h)
      (λ _.
        if-holds IsPointing (non_empty (trim p.query))
          (λ _. record { points = h.points; loads = h.loads })
          (λ _. record { points = tt; loads = h.loads }))

open_effect-IsPointing : (p : Palette) → IsPointing p → IsPointing (open_effect p)
unfolding open_effect
open_effect-IsPointing p h =
    if-holds IsPointing p.is_open (λ _. record { points = tt; loads = h.loads }) (λ _. h)

append_ne_nil : (xs : List String) (x : String) → xs ++ x ∷ [] ≢ []
append_ne_nil [] x e = cc
append_ne_nil (y ∷ xs) x e = cc

send_search-IsPointing :
    (query : Option String) (p : Palette) → IsPointing p → IsPointing (send_search query p)
unfolding send_search
send_search-IsPointing none p h = h
send_search-IsPointing (some query) p h = record {
  points = h.points;
  loads = λ _. append_ne_nil p.in_flight query;
}

close-IsPointing : (p : Palette) → IsPointing p → IsPointing (close p)
unfolding close
close-IsPointing p h = record { points = tt; loads = h.loads }

enter_result-IsPointing :
    (active : Option SearchResult) (p : Palette) (nav : Navigation) (selected : Option String)
    → IsPointing p
    → IsPointing (enter_result active p nav selected).0
unfolding enter_result
enter_result-IsPointing none p nav selected h = h
enter_result-IsPointing (some result) p nav selected h = close-IsPointing p h

module _ (trim : String → String) where
  PaletteStep-IsPointing : {p q : Palette} → PaletteStep trim p q → IsPointing p → IsPointing q
  unfolding toggle_open press_escape type_query fire_timer receive arrow_down arrow_up hover
      press_enter select_result
  PaletteStep-IsPointing (toggled p) h = search_effect-IsPointing trim _ (
      open_effect-IsPointing (record p { is_open = not p.is_open })
        (record { points = h.points; loads = h.loads }))
  PaletteStep-IsPointing (escaped p) h = record { points = h.points; loads = h.loads }
  PaletteStep-IsPointing (typed query p) h =
      search_effect-IsPointing trim (record p { query = query })
        (record { points = h.points; loads = h.loads })
  PaletteStep-IsPointing (fired p) h = send_search-IsPointing p.timer p h
  PaletteStep-IsPointing (answered query answer p waits) h = record {
    points = Points-one _;
    loads = λ e. absurd (cc);
  }
  PaletteStep-IsPointing (down p) h = record {
    points = Points-down p.active_next p.results h.points;
    loads = h.loads;
  }
  PaletteStep-IsPointing (up p) h = record {
    points = Points-up p.active_next p.results h.points;
    loads = h.loads;
  }
  PaletteStep-IsPointing (hovered idx p) h =
      if-holds IsPointing (ltb idx (length p.results))
        (λ e. record { points = Points-at idx p.results (ltb→lt _ _ e); loads = h.loads }) (λ _. h)
  PaletteStep-IsPointing (entered p nav selected) h =
      enter_result-IsPointing (active_result p) p nav selected h
  PaletteStep-IsPointing (backdrop_clicked p) h = close-IsPointing p h
  PaletteStep-IsPointing (result_clicked idx r p nav listed) h = close-IsPointing p h

  PaletteRun-IsPointing : {p : Palette} → PaletteRun trim p → IsPointing p
  PaletteRun-IsPointing mounted = record { points = tt; loads = λ e. absurd (cc) }
  PaletteRun-IsPointing (and_then before step) =
      PaletteStep-IsPointing step (PaletteRun-IsPointing before)

in_range : {A : Type 0} (i : ℕ) (xs : List A) → i < length xs → (x : A) × (get_elem? xs i ≡ some x)
in_range i [] h = absurd (omega arith)
in_range zero (x ∷ xs) h = (x, refl)
in_range (suc i) (x ∷ xs) h = in_range i xs (omega arith)

pointed :
    (p : Palette) (next : ℕ) (results : List SearchResult)
    → p.active_next ≡ next
    → p.results ≡ results
    → results ≢ []
    → Points next results
    → (r : SearchResult) × (active_result p ≡ some r)
unfolding active_result
pointed p next [] e f listed h = absurd (listed refl)
pointed p zero (r ∷ rs) e f listed (low, high) = absurd (omega arith)
pointed p (suc i) (r ∷ rs) e f listed (low, high) = rw (e, f) (in_range i (r ∷ rs) (omega arith))

enter_selects :
    (p : Palette) (nav : Navigation) (selected : Option String) (r : SearchResult)
    → active_result p ≡ some r
    → press_enter p nav selected ≡ select_result r.product_id p nav
unfolding press_enter enter_result
enter_selects p nav selected r e = rw (e, press_enter)

-- Whatever is typed, pressed, pointed at and answered before: if the palette lists results, Enter
-- opens one of the products it lists; and "Searching..." is shown only while a search waits for its
-- answer.
pub enter_opens :
    (trim : String → String) {p : Palette} (nav : Navigation) (selected : Option String)
    → PaletteRun trim p
    → (p.results ≢ []
        → (r : SearchResult) × (active_result p ≡ some r)
          × (press_enter p nav selected ≡ select_result r.product_id p nav))
      × (p.loading ≡ true → p.in_flight ≢ [])
enter_opens trim {p} nav selected run =
    let h = PaletteRun-IsPointing trim run in
    (
      λ listed.
          let (r, e) = pointed p p.active_next p.results refl refl listed h.points in
          (r, e, enter_selects p nav selected r e),
      h.loads,
    )
