-- ===== src/Documentation/Toolbar/Selection.antt =====
-- What an insertion keeps, and what it selects.
use etl_nexus.Common.{
  ℕ, ◌+◌, ◌-◌, ◌≤◌, ◌++◌, ◌≡◌, sym, ◌∙◌, arith, append_assoc, Text, length, take, drop,
  length-append, length-take, drop-append, take-append,
}
use etl_nexus.Documentation.Toolbar.{
  Editor, slice, Options, line_prefix, inserted_text, insert_at_cursor, block_prefix, insert_block,
  Insertion, wrap, block, insert,
}

-- The selection lies in the text.
pub record IsInText (e : Editor) : Type 0 where
  pub ordered : e.selection_start ≤ e.selection_end
  pub inside : e.selection_end ≤ length e.text

slice-between :
    (xs ys zs : Text) → slice (length xs) (length xs + length ys) (xs ++ (ys ++ zs)) ≡ ys
unfolding slice
slice-between xs ys zs =
    let rest : length xs + length ys - length xs ≡ length ys = omega arith in
    rw (rest, drop-append xs (ys ++ zs)) (take-append ys zs)

-- `slice` at positions that are known to be lengths
slice_at :
    (xs ys zs : Text) (from to : ℕ)
    → from ≡ length xs
    → to ≡ length xs + length ys
    → slice from to (xs ++ (ys ++ zs)) ≡ ys
slice_at xs ys zs from to e f = rw (e, f) (slice-between xs ys zs)

-- What an insertion makes of a text: what stands before and after the selection is kept, the
-- selected or proposed text stands between the two markers, and it is selected afterwards.
pub record IsInserted (before after : Text) (opts : Options) (e new : Editor) : Type 0 where
  pub middle : Text
  pub kept : new.text ≡ take e.selection_start e.text ++ (middle ++ drop e.selection_end e.text)
  pub selected : slice new.selection_start new.selection_end new.text ≡ inserted_text opts e
  pub opened : slice (new.selection_start - length before) new.selection_start new.text ≡ before
  pub closed : slice new.selection_end (new.selection_end + length after) new.text ≡ after
  pub in_text : IsInText new

module _ (before after : Text) (opts : Options) (e : Editor) (h : IsInText e) where
  abbrev prefix : Text
  prefix = line_prefix opts.newline e.text e.selection_start

  abbrev text : Text
  text = inserted_text opts e

  abbrev rest : Text
  rest = drop e.selection_end e.text

  abbrev head : Text
  head = take e.selection_start e.text

  start_eq : e.selection_start ≡ length head
  start_eq =
      let ordered = h.ordered in
      let inside = h.inside in omega (arith, length-take e.selection_start e.text)

  -- the whole text, with a cut in front of each part
  at_before :
      head ++ (prefix ++ (before ++ (text ++ (after ++ rest))))
      ≡ (head ++ prefix) ++ (before ++ (text ++ (after ++ rest)))
  at_before = sym (append_assoc head prefix (before ++ (text ++ (after ++ rest))))

  at_text :
      head ++ (prefix ++ (before ++ (text ++ (after ++ rest))))
      ≡ ((head ++ prefix) ++ before) ++ (text ++ (after ++ rest))
  at_text = at_before ∙ sym (append_assoc (head ++ prefix) before (text ++ (after ++ rest)))

  at_after :
      head ++ (prefix ++ (before ++ (text ++ (after ++ rest))))
      ≡ (((head ++ prefix) ++ before) ++ text) ++ (after ++ rest)
  at_after = at_text ∙ sym (append_assoc ((head ++ prefix) ++ before) text (after ++ rest))

  lengths :
      (length (head ++ prefix) ≡ e.selection_start + length prefix)
      × ((length ((head ++ prefix) ++ before) ≡ e.selection_start + length prefix + length before)
          × (length (((head ++ prefix) ++ before) ++ text)
              ≡ e.selection_start + length prefix + length before + length text))
  lengths = omega (
    arith,
    start_eq,
    length-append head prefix,
    length-append (head ++ prefix) before,
    length-append ((head ++ prefix) ++ before) text,
  )

  -- Wrapping a selection that lies in the text: the text before and after the selection is kept; the
  -- selected text, or the placeholder when nothing is selected, stands between the two markers and
  -- is selected afterwards.
  pub insert_at_cursor-IsInserted :
      IsInserted before after opts e (insert_at_cursor before after opts e)
  unfolding insert_at_cursor
  insert_at_cursor-IsInserted =
      let (to_before, (to_text, to_after)) = lengths in
      record {
        middle = prefix ++ (before ++ (text ++ after));
        kept = simp append_assoc;
        selected = rw at_text (
            slice_at ((head ++ prefix) ++ before) text (after ++ rest) _ _ (omega arith)
              (omega arith));
        opened = rw at_before (
            slice_at (head ++ prefix) before (text ++ (after ++ rest)) _ _ (omega arith)
              (omega arith));
        closed = rw at_after (
            slice_at (((head ++ prefix) ++ before) ++ text) after rest _ _ (omega arith)
              (omega arith));
        in_text = record {
          ordered = omega arith;
          inside =
              rw at_after (
                omega
                  (arith, length-append (((head ++ prefix) ++ before) ++ text) (after ++ rest)));
        };
      }

module _ (text : Text) (e : Editor) (h : IsInText e) where
  insert_block-IsInText : IsInText (insert_block text e)
  unfolding insert_block
  insert_block-IsInText =
      let ordered = h.ordered in
      let inside = h.inside in
      record {
        ordered = omega arith;
        inside = omega (
          arith,
          length-append (take e.selection_start e.text)
              (block_prefix e.text e.selection_start ++ (text ++ drop e.selection_start e.text)),
          length-append (block_prefix e.text e.selection_start)
              (text ++ drop e.selection_start e.text),
          length-append text (drop e.selection_start e.text),
          length-take e.selection_start e.text,
        );
      }

pub insert-IsInText :
    (insertion : Insertion) (e : Editor) → IsInText e → IsInText (insert insertion e)
unfolding insert
insert-IsInText (wrap before after opts) e h =
    (insert_at_cursor-IsInserted before after opts e h).in_text
insert-IsInText (block text) e h = insert_block-IsInText text e h
