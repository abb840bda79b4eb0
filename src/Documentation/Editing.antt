-- ===== src/Documentation/Editing.antt =====
-- Who edits and saves the documentation.
use etl_nexus.Common.{
  ℕ, Bool, true, false, not, false≢true, ◌&&◌, List, [], ◌∷◌, Option, none, some, Text, if-holds,
  ◌≡◌, ◌≢◌, ◌⊎◌, inl, inr, refl, sym, ◌∙◌, ap, subst, arith,
}
use etl_nexus.Documentation.Toolbar.{Button}
use etl_nexus.Documentation.{
  ModalTab, preview, edit, history, DocProps, DocState, initial_doc, is_editing, reset_effect,
  open_doc_effect, same_documentation, receive_props, click_card, close_doc, on_save, handle_save,
  click_save, DocKey, escape, ctrl_s, other_key, handle_open_key, handle_key, click_modal_tab,
  edit_text, press_toolbar, toggle_cheatsheet, on_restored,
}

-- What the user and the workspace do with the documentation of one product while the permission to
-- edit stays as it is. The index between the states is the text that is saved.
pub data DocStep : DocProps → DocState → Option Text → DocProps → DocState → Type 0 where
  received :
      (p new : DocProps) (s : DocState)
      → new.can_edit ≡ p.can_edit
      → DocStep p s none new (receive_props p new s)
  opened : (p : DocProps) (s : DocState) → DocStep p s none p (click_card p s)
  closed : (p : DocProps) (s : DocState) → DocStep p s none p (close_doc s)
  save_clicked : (p : DocProps) (s : DocState) → DocStep p s (click_save p s).1 p (click_save p s).0
  pressed :
      (key : DocKey) (p : DocProps) (s : DocState)
      → DocStep p s (handle_key key s).1 p (handle_key key s).0
  tab_clicked :
      (tab : ModalTab) (p : DocProps) (s : DocState)
      → s.doc_open ≡ true
      → DocStep p s none p (click_modal_tab tab p s)
  typed :
      (text : Text) (p : DocProps) (s : DocState)
      → s.doc_open ≡ true
      → DocStep p s none p (edit_text text s)
  tool_pressed :
      (button : Button) (from to : ℕ) (p : DocProps) (s : DocState)
      → s.doc_open ≡ true
      → DocStep p s none p (press_toolbar button from to s)
  cheatsheet_toggled :
      (p : DocProps) (s : DocState) → s.doc_open ≡ true → DocStep p s none p (toggle_cheatsheet s)
  restored :
      (p : DocProps) (s : DocState) → s.active_tab ≡ history → DocStep p s none p (on_restored s)

abbrev pub log : Option Text → List Text → List Text
log none texts = texts
log (some text) texts = text ∷ texts

-- the texts saved in a run, the last one first
pub data DocRun : DocProps → DocState → List Text → Type 0 where
  mounted : (p : DocProps) → DocRun p (initial_doc p) []
  and_then :
      {p q : DocProps} {s t : DocState} {texts : List Text} {text : Option Text}
      → DocRun p s texts
      → DocStep p s text q t
      → DocRun q t (log text texts)

-- Only who can edit sees the editor, and an open modal shows the cheatsheet in the editor only.
pub record IsGuarded (can_edit : Bool) (s : DocState) : Type 0 where
  pub edits : is_editing s.active_tab ≡ true → can_edit ≡ true
  pub cheatsheet :
      s.cheatsheet_open ≡ true → (is_editing s.active_tab ≡ true) ⊎ (s.doc_open ≡ false)

abbrev Next : DocProps → DocState × Option Text → Type 0
Next p (s, text) = IsGuarded p.can_edit s × (text ≢ none → p.can_edit ≡ true)

open_doc_effect-IsGuarded :
    (c : Bool) (p : DocProps) (s : DocState) → IsGuarded c s → IsGuarded c (open_doc_effect p s)
unfolding open_doc_effect is_editing
open_doc_effect-IsGuarded c p s h =
    if-holds (IsGuarded c) s.doc_open (λ _. record { edits = λ e. cc; cheatsheet = λ e. cc })
      (λ _. h)

receive_props-IsGuarded :
    (c : Bool) (p new : DocProps) (s : DocState)
    → IsGuarded c s
    → IsGuarded c (receive_props p new s)
unfolding receive_props reset_effect
receive_props-IsGuarded c p new s h =
    if-holds (IsGuarded c) (same_documentation p.documentation new.documentation) (λ _. h)
      (λ _.
        open_doc_effect-IsGuarded c new _ (record { edits = h.edits; cheatsheet = h.cheatsheet }))

click_card-IsGuarded :
    (c : Bool) (p : DocProps) (s : DocState) → IsGuarded c s → IsGuarded c (click_card p s)
unfolding click_card open_doc_effect is_editing
click_card-IsGuarded c p s h =
    if-holds (IsGuarded c) s.doc_open (λ _. h)
      (λ _. record { edits = λ e. cc; cheatsheet = λ e. cc })

on_save-IsGuarded :
    (c : Bool) (text : Text) (s : DocState) → IsGuarded c s → IsGuarded c (on_save text s).0
unfolding on_save
on_save-IsGuarded c text s h = record { edits = h.edits; cheatsheet = λ _. inr refl }

close_doc-IsGuarded : (c : Bool) (s : DocState) → IsGuarded c s → IsGuarded c (close_doc s)
unfolding close_doc
close_doc-IsGuarded c s h = record { edits = h.edits; cheatsheet = λ _. inr refl }

click_save-IsGuarded :
    (p : DocProps) (s : DocState) → IsGuarded p.can_edit s → Next p (click_save p s)
unfolding click_save handle_save on_save
click_save-IsGuarded p s h =
    if-holds (Next p) (s.doc_open && (is_editing s.active_tab && (p.can_edit && not p.is_saving)))
      (λ e. (record { edits = λ e'. cc; cheatsheet = λ _. inr refl }, λ _. ground arith))
      (λ _. (h, λ n. absurd (n refl)))

handle_key-IsGuarded :
    (key : DocKey) (p : DocProps) (s : DocState)
    → IsGuarded p.can_edit s
    → Next p (handle_key key s)
unfolding handle_key handle_open_key close_doc
handle_key-IsGuarded escape p s h =
    if-holds (Next p) s.doc_open
      (λ _. (record { edits = h.edits; cheatsheet = λ _. inr refl }, λ n. absurd (n refl)))
      (λ _. (h, λ n. absurd (n refl)))
handle_key-IsGuarded ctrl_s p s h =
    if-holds (Next p) s.doc_open
      (λ _.
        if-holds (Next p) (is_editing s.active_tab)
          (λ e. (on_save-IsGuarded p.can_edit s.edit_value s h, λ _. h.edits e))
          (λ _. (h, λ n. absurd (n refl))))
      (λ _. (h, λ n. absurd (n refl)))
handle_key-IsGuarded other_key p s h =
    if-holds (Next p) s.doc_open (λ _. (h, λ n. absurd (n refl))) (λ _. (h, λ n. absurd (n refl)))

click_modal_tab-IsGuarded :
    (tab : ModalTab) (p : DocProps) (s : DocState)
    → IsGuarded p.can_edit s
    → IsGuarded p.can_edit (click_modal_tab tab p s)
unfolding click_modal_tab is_editing
click_modal_tab-IsGuarded preview p s h = record { edits = λ e. cc; cheatsheet = λ e. cc }
click_modal_tab-IsGuarded edit p s h =
    if-holds (IsGuarded p.can_edit) p.can_edit
      (λ e. record { edits = λ _. e; cheatsheet = λ _. inl refl }) (λ _. h)
click_modal_tab-IsGuarded history p s h = record { edits = λ e. cc; cheatsheet = λ e. cc }

edit_text-IsGuarded :
    (c : Bool) (text : Text) (s : DocState) → IsGuarded c s → IsGuarded c (edit_text text s)
unfolding edit_text
edit_text-IsGuarded c text s h =
    if-holds (IsGuarded c) (is_editing s.active_tab)
      (λ _. record { edits = h.edits; cheatsheet = h.cheatsheet }) (λ _. h)

press_toolbar-IsGuarded :
    (c : Bool) (button : Button) (from to : ℕ) (s : DocState)
    → IsGuarded c s
    → IsGuarded c (press_toolbar button from to s)
unfolding press_toolbar
press_toolbar-IsGuarded c button from to s h = edit_text-IsGuarded c _ s h

toggle_cheatsheet-IsGuarded :
    (c : Bool) (s : DocState) → IsGuarded c s → IsGuarded c (toggle_cheatsheet s)
unfolding toggle_cheatsheet
toggle_cheatsheet-IsGuarded c s h =
    if-holds (IsGuarded c) (is_editing s.active_tab)
      (λ e. record { edits = h.edits; cheatsheet = λ _. inl e }) (λ _. h)

on_restored-IsGuarded :
    (c : Bool) (s : DocState) → s.active_tab ≡ history → IsGuarded c s → IsGuarded c (on_restored s)
unfolding on_restored is_editing
on_restored-IsGuarded c s at h = record {
  edits = λ e. cc;
  cheatsheet = λ e. elim (h.cheatsheet e) [
    | inl editing ↦ absurd (false≢true (sym (ap is_editing at) ∙ editing))
    | inr is_closed ↦ inr is_closed
  ];
}

DocStep-IsGuarded :
    {p q : DocProps} {s t : DocState} {text : Option Text}
    → DocStep p s text q t
    → IsGuarded p.can_edit s
    → IsGuarded q.can_edit t × (text ≢ none → q.can_edit ≡ true)
DocStep-IsGuarded (received p new s e) h = (
  subst (λ c. IsGuarded c (receive_props p new s)) (sym e)
      (receive_props-IsGuarded p.can_edit p new s h),
  λ n. absurd (n refl),
)
DocStep-IsGuarded (opened p s) h = (click_card-IsGuarded p.can_edit p s h, λ n. absurd (n refl))
DocStep-IsGuarded (closed p s) h = (close_doc-IsGuarded p.can_edit s h, λ n. absurd (n refl))
DocStep-IsGuarded (save_clicked p s) h = click_save-IsGuarded p s h
DocStep-IsGuarded (pressed key p s) h = handle_key-IsGuarded key p s h
DocStep-IsGuarded (tab_clicked tab p s e) h =
    (click_modal_tab-IsGuarded tab p s h, λ n. absurd (n refl))
DocStep-IsGuarded (typed text p s e) h =
    (edit_text-IsGuarded p.can_edit text s h, λ n. absurd (n refl))
DocStep-IsGuarded (tool_pressed button from to p s e) h =
    (press_toolbar-IsGuarded p.can_edit button from to s h, λ n. absurd (n refl))
DocStep-IsGuarded (cheatsheet_toggled p s e) h =
    (toggle_cheatsheet-IsGuarded p.can_edit s h, λ n. absurd (n refl))
DocStep-IsGuarded (restored p s e) h =
    (on_restored-IsGuarded p.can_edit s e h, λ n. absurd (n refl))

step_permission :
    {p q : DocProps} {s t : DocState} {text : Option Text}
    → DocStep p s text q t
    → q.can_edit ≡ p.can_edit
step_permission (received p new s e) = e
step_permission (opened p s) = refl
step_permission (closed p s) = refl
step_permission (save_clicked p s) = refl
step_permission (pressed key p s) = refl
step_permission (tab_clicked tab p s e) = refl
step_permission (typed text p s e) = refl
step_permission (tool_pressed button from to p s e) = refl
step_permission (cheatsheet_toggled p s e) = refl
step_permission (restored p s e) = refl

initial_doc-IsGuarded : (p : DocProps) → IsGuarded p.can_edit (initial_doc p)
unfolding initial_doc is_editing
initial_doc-IsGuarded p = record { edits = λ e. cc; cheatsheet = λ e. cc }

log-permission :
    {c d : Bool} (text : Option Text) (texts : List Text)
    → d ≡ c
    → (text ≢ none → d ≡ true)
    → (texts ≢ [] → c ≡ true)
    → log text texts ≢ []
    → d ≡ true
log-permission none texts e new old n = e ∙ old n
log-permission (some text) texts e new old n = new (λ eq. cc)

-- In every run in which the permission to edit stays as it is, starting at a mounted page: the
-- editor is shown only to someone who can edit, an open modal shows the cheatsheet only in the
-- editor, and if any text was saved, by the button or by the key, the user can edit.
pub DocRun-IsGuarded :
    {p : DocProps} {s : DocState} {texts : List Text}
    → DocRun p s texts
    → IsGuarded p.can_edit s × (texts ≢ [] → p.can_edit ≡ true)
DocRun-IsGuarded (mounted p) = (initial_doc-IsGuarded p, λ n. absurd (n refl))
DocRun-IsGuarded (and_then {texts = texts} {text = text} run step) =
    let (guarded, saves) = DocRun-IsGuarded run in
    let (guarded_next, saves_next) = DocStep-IsGuarded step guarded in
    (guarded_next, log-permission text texts (step_permission step) saves_next saves)
