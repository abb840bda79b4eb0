-- ===== src/Documentation/Toolbar/Lines.antt =====
-- Where an insertion starts: headings and list items at the start of a line, blocks after a blank line.
use etl_nexus.Common.{
  ℕ, zero, suc, ◌+◌, ◌-◌, ◌<◌, Bool, true, false, [], ◌∷◌, ◌++◌, Option, none, some, ◌≡◌, ◌⊎◌, inl,
  inr, refl, ◌∙◌, ap, arith, Bool-cases, Text, length, take, get_elem?, length-take,
  get_elem?-append, get_elem?-append_lt, get_elem?-take,
}
use etl_nexus.Documentation.Toolbar.{
  Editor, is_feed, is_inside_line, line_prefix, insert_at_cursor, block_prefix, insert_block,
  Insertion, wrap, block, insert,
}
use etl_nexus.Documentation.Toolbar.Selection.{IsInText}

-- The position is at the start of a line.
abbrev pub IsLineStart : Text → ℕ → Type 0
IsLineStart text n = (n ≡ 0) ⊎ (get_elem? text (n - 1) ≡ some b'\n')

-- The position is at the start of the text, or after a blank line.
abbrev pub IsAfterBlank : Text → ℕ → Type 0
IsAfterBlank text n =
    (n ≡ 0) ⊎ ((get_elem? text (n - 1) ≡ some b'\n') × (get_elem? text (n - 2) ≡ some b'\n'))

-- Where an insertion of each kind starts.
abbrev pub StartsWell : Insertion → Editor → Type 0
StartsWell (wrap before after opts) new =
    opts.newline ≡ true → IsLineStart new.text (new.selection_start - length before)
StartsWell (block text) new = IsAfterBlank new.text (new.selection_start - length text)

is_feed_lem : (c : Option ℕ) → is_feed c ≡ true → c ≡ some b'\n'
is_feed_lem none h = absurd (cc)
is_feed_lem (some c) h = ground arith

-- outside of a line that has begun, the text starts or the character before is a line feed
not_inside :
    (text : Text) (start : ℕ)
    → is_inside_line text start ≡ false
    → (start ≡ 0) ⊎ (get_elem? text (start - 1) ≡ some b'\n')
unfolding is_inside_line
not_inside text zero h = inl refl
not_inside text (suc start) h = inr (is_feed_lem _ (ground arith))

-- a line feed, when the cursor stands inside a line
abbrev feed_when : Bool → Text
feed_when true = b'\n' ∷ []
feed_when false = []

Nat-cases : (n : ℕ) → (n ≡ 0) ⊎ (0 < n)
Nat-cases zero = inl refl
Nat-cases (suc n) = inr (omega arith)

module _ (e : Editor) (h : IsInText e) where
  abbrev head : Text
  head = take e.selection_start e.text

  length-head : length head ≡ e.selection_start
  length-head =
      let ordered = h.ordered in
      let inside = h.inside in omega (arith, length-take e.selection_start e.text)

  -- characters before the cursor, and after it
  kept_before :
      (rest : Text) (i : ℕ)
      → i < e.selection_start
      → get_elem? (head ++ rest) i ≡ get_elem? e.text i
  kept_before rest i lt =
      get_elem?-append_lt head rest i (omega (arith, length-head))
      ∙ get_elem?-take e.selection_start e.text i lt

  put_after :
      (rest : Text) (i n : ℕ)
      → n ≡ e.selection_start + i
      → get_elem? (head ++ rest) n ≡ get_elem? rest i
  put_after rest i n index =
      ap (get_elem? (head ++ rest)) (omega (arith, length-head)) ∙ get_elem?-append head rest i

  -- what stands before the cursor still stands there
  feed_kept :
      (rest : Text)
      → get_elem? e.text (e.selection_start - 1) ≡ some b'\n'
      → 0 < e.selection_start
      → get_elem? (head ++ rest) (e.selection_start - 1) ≡ some b'\n'
  feed_kept rest feed lt = kept_before rest (e.selection_start - 1) (omega arith) ∙ feed

  line_start :
      (rest : Text) (inside : Bool)
      → is_inside_line e.text e.selection_start ≡ inside
      → (n : ℕ) → n ≡ e.selection_start + length (feed_when inside)
      → IsLineStart (head ++ (feed_when inside ++ rest)) n
  line_start rest true at n eq = inr (put_after (b'\n' ∷ rest) 0 _ (omega arith))
  line_start rest false at n eq = elim (Nat-cases e.selection_start) [
    | inl zero_eq ↦ inl (omega arith)
    | inr positive ↦ elim (not_inside e.text e.selection_start at) [
      | inl first ↦ inl (omega arith)
      | inr feed ↦ inr (ap (get_elem? (head ++ rest)) (omega arith) ∙ feed_kept rest feed positive)
    ]
  ]

  wrap_start :
      (rest prefix : Text)
      → line_prefix true e.text e.selection_start ≡ prefix
      → (n : ℕ) → n ≡ e.selection_start + length prefix
      → IsLineStart (head ++ (prefix ++ rest)) n
  unfolding line_prefix
  wrap_start rest prefix at n eq = elim (Bool-cases (is_inside_line e.text e.selection_start)) [
    | inl inside ↦
        let prefix_eq : prefix ≡ feed_when true = ground arith in
        rw prefix_eq (line_start rest true inside n (omega (arith, ap length prefix_eq)))
    | inr outside ↦
        let prefix_eq : prefix ≡ feed_when false = ground arith in
        rw prefix_eq (line_start rest false outside n (omega (arith, ap length prefix_eq)))
  ]

  blank_after_two :
      (rest : Text) (n : ℕ)
      → n ≡ e.selection_start + 2
      → IsAfterBlank (head ++ (b'\n' ∷ b'\n' ∷ rest)) n
  blank_after_two rest n eq = inr (
    put_after (b'\n' ∷ b'\n' ∷ rest) 1 _ (omega arith),
    put_after (b'\n' ∷ b'\n' ∷ rest) 0 _ (omega arith),
  )

  blank_after_one :
      (rest : Text) (n : ℕ)
      → n ≡ e.selection_start + 1
      → 0 < e.selection_start
      → get_elem? e.text (e.selection_start - 1) ≡ some b'\n'
      → IsAfterBlank (head ++ (b'\n' ∷ rest)) n
  blank_after_one rest n eq positive feed = inr (
    put_after (b'\n' ∷ rest) 0 _ (omega arith),
    ap (get_elem? (head ++ (b'\n' ∷ rest))) (omega arith) ∙ feed_kept (b'\n' ∷ rest) feed positive,
  )

  block_start :
      (rest prefix : Text)
      → block_prefix e.text e.selection_start ≡ prefix
      → (n : ℕ) → n ≡ e.selection_start + length prefix
      → IsAfterBlank (head ++ (prefix ++ rest)) n
  unfolding block_prefix
  block_start rest prefix at n eq = elim (Bool-cases (is_inside_line e.text e.selection_start)) [
    | inl inside ↦
        let prefix_eq : prefix ≡ b'\n' ∷ b'\n' ∷ [] = ground arith in
        rw prefix_eq (blank_after_two rest n (omega (arith, ap length prefix_eq)))
    | inr outside ↦ elim (Nat-cases e.selection_start) [
      | inl zero_eq ↦
          let prefix_eq : prefix ≡ [] = ground arith in inl (omega (arith, ap length prefix_eq))
      | inr positive ↦ elim (not_inside e.text e.selection_start outside) [
        | inl first ↦ inl (omega arith)
        | inr feed ↦
            let prefix_eq : prefix ≡ b'\n' ∷ [] = ground arith in
            rw prefix_eq (blank_after_one rest n (omega (arith, ap length prefix_eq)) positive feed)
      ]
    ]
  ]

  pub insert-StartsWell : (insertion : Insertion) → StartsWell insertion (insert insertion e)
  unfolding insert insert_at_cursor insert_block line_prefix
  insert-StartsWell (wrap before after opts) =
      λ newline. rw newline (wrap_start _ _ refl _ (omega arith))
  insert-StartsWell (block text) = block_start _ _ refl _ (omega arith)
