-- ===== src/Documentation/Refetching.antt =====
-- What another documentation does to an edit, and the same one.
use etl_nexus.Common.{
  true, false, false≢true, [], ◌∷◌, Option, none, some, Text, same_text, ◌≡◌, ◌≢◌, ◌⊎◌, inl, inr,
  refl, sym, ◌∙◌, ap, same_text_iff, Bool-cases,
}
use etl_nexus.Documentation.{
  preview, DocProps, DocState, or_empty, preview_content, reset_effect, open_doc_effect,
  same_documentation, receive_props,
}

same_documentation-cases :
    (a b : Option Text)
    → ((same_documentation a b ≡ true) × (a ≡ b)) ⊎ ((same_documentation a b ≡ false) × (a ≢ b))
same_documentation-cases none none = inl (refl, refl)
same_documentation-cases none (some b) = inr (refl, λ e. cc)
same_documentation-cases (some a) none = inr (refl, λ e. cc)
same_documentation-cases (some a) (some b) =
    let (to, from) = same_text_iff a b in
    elim (Bool-cases (same_text a b)) [
      | inl same ↦ inl (same, ap some (to same))
      | inr different ↦ inr (different, λ e. false≢true (sym different ∙ from (cc)))
    ]

preview_content-same :
    (p : DocProps) (text : Text) → text ≡ or_empty p.documentation → preview_content p text ≡ text
unfolding preview_content
preview_content-same p [] e = sym e
preview_content-same p (c ∷ text) e = refl

-- Another documentation arrives while the modal is open: the edit is over, its text is gone, and
-- the preview shows the documentation that arrived, whatever was typed before. The same
-- documentation changes nothing, also where it belongs to another product.
pub receive_props-discards :
    (old new : DocProps) (s : DocState)
    → s.doc_open ≡ true
    → ((old.documentation ≢ new.documentation)
        × ((receive_props old new s).active_tab ≡ preview)
        × (preview_content new (receive_props old new s).edit_value ≡ or_empty new.documentation))
      ⊎ ((old.documentation ≡ new.documentation) × (receive_props old new s ≡ s))
unfolding receive_props reset_effect open_doc_effect
receive_props-discards old new s is_open =
    elim (same_documentation-cases old.documentation new.documentation) [
      | inl (same, equal) ↦ inr (equal, rw same refl)
      | inr (different, unequal) ↦ inl (
        unequal,
        rw (different, is_open) refl,
        rw (different, is_open) (preview_content-same new _ refl),
      )
    ]
