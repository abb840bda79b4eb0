-- ===== src/EditableTitle/Limit.antt =====
-- The limit of the description.
use etl_nexus.Common.{◌≤◌, Bool, true, Option, Text, length, length-take, ◌≡◌, arith}
use etl_nexus.EditableTitle.{
  TitleState, or_empty, reset_title, start_editing, change_text, handle_save_desc,
  handle_cancel_edit, handle_title_key, TitleKey, ctrl_enter, escape, other_key, toggle_history,
}

-- What the user may do while the product has a description.
pub data Edit (can_edit : Bool) (description : Option Text) : TitleState → TitleState → Type 0 where
  started : (s : TitleState) → Edit can_edit description s (start_editing can_edit description s)
  changed : (text : Text) (s : TitleState) → Edit can_edit description s (change_text text s)
  pressed :
      (key : TitleKey) (s : TitleState)
      → Edit can_edit description s (handle_title_key key description s).0
  cancelled : (s : TitleState) → Edit can_edit description s (handle_cancel_edit description s)
  toggled : (s : TitleState) → Edit can_edit description s (toggle_history s)

pub data Edits (can_edit : Bool) (description : Option Text) (s : TitleState)
    : TitleState → Type 0 where
  shown : Edits can_edit description s (reset_title description s)
  and_then :
      {t u : TitleState}
      → Edits can_edit description s t
      → Edit can_edit description t u
      → Edits can_edit description s u

-- The text fits, and only those who can edit are editing.
pub record IsWithin (can_edit : Bool) (s : TitleState) : Type 0 where
  pub fits : length s.edit_value ≤ 270
  pub allowed : s.is_editing_desc ≡ true → can_edit ≡ true

Edit-IsWithin :
    (can_edit : Bool) (description : Option Text) {s t : TitleState}
    → length (or_empty description) ≤ 270
    → Edit can_edit description s t
    → IsWithin can_edit s
    → IsWithin can_edit t
unfolding start_editing change_text handle_title_key handle_cancel_edit toggle_history
Edit-IsWithin can_edit description short (started s) h = ground arith
Edit-IsWithin can_edit description short (changed text s) h = record {
  fits = omega (arith, length-take 270 text);
  allowed = h.allowed;
}
Edit-IsWithin can_edit description short (pressed ctrl_enter s) h = ground arith
Edit-IsWithin can_edit description short (pressed escape s) h = ground arith
Edit-IsWithin can_edit description short (pressed other_key s) h = h
Edit-IsWithin can_edit description short (cancelled s) h = ground arith
Edit-IsWithin can_edit description short (toggled s) h = ground arith

-- If the description of a product has at most 270 code units, then whatever is typed, so has each
-- text that can be saved, and only someone who can edit the product is ever editing.
pub Edits-IsWithin :
    (can_edit : Bool) (description : Option Text) (s : TitleState) {t : TitleState}
    → length (or_empty description) ≤ 270
    → Edits can_edit description s t
    → (IsWithin can_edit t) × (length (handle_save_desc t).1 ≤ 270)
unfolding handle_save_desc reset_title
Edits-IsWithin can_edit description s short shown =
    (record { fits = short; allowed = λ e. absurd (cc) }, short)
Edits-IsWithin can_edit description s short (and_then before edit) =
    let (within, _) = Edits-IsWithin can_edit description s short before in
    let after = Edit-IsWithin can_edit description short edit within in (after, after.fits)
