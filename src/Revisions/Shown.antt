-- ===== src/Revisions/Shown.antt =====
-- What a row shows of a long text, and which rows are shown.
use etl_nexus.Common.{
  ℕ, ◌≤◌, ◌<◌, [], ◌∷◌, ◌++◌, none, some, ltb, if◌then◌else◌, Text, codes, length, take,
  length-append, length-take, ◌≡◌, ◌⊎◌, inl, inr, refl, arith, if-holds, ltb→lt,
}
use etl_nexus.Revisions.{shown_content}

-- The text is shown as it is, or its first 500 code units are and "..." follows.
pub record IsCut (content shown : Text) : Type 0 where
  pub whole_or_cut : (shown ≡ content) ⊎ (shown ≡ take 500 content ++ codes "...")
  pub whole : length content ≤ 500 → shown ≡ content
  pub bounded : length shown ≤ 503

too_long : (n : ℕ) → 500 < n → n ≤ 500 → ⊥
too_long n over short = omega arith

abbrev cut : Text → Text
cut content = if ltb 500 (length content) then take 500 content ++ codes "..." else content

cut-IsCut : (content : Text) → IsCut content (cut content)
cut-IsCut content =
    if-holds (IsCut content) (ltb 500 (length content))
      (λ long.
        let over = ltb→lt 500 (length content) long in
        record {
          whole_or_cut = inr refl;
          whole = λ short. absurd (too_long (length content) over short);
          bounded =
              omega
                (arith, length-append (take 500 content) (codes "..."), length-take 500 content);
        })
      (λ short. record { whole_or_cut = inl refl; whole = λ _. refl; bounded = ground arith })

-- What a row shows of a revision's content: "Empty content" for an empty text, else the text itself
-- if it has at most 500 code units, else its first 500 and "...", at most 503 in all.
shown_content-IsCut :
    (content : Text)
    → ((content ≡ []) × (shown_content (some content) ≡ none))
      ⊎ ((shown : Text) × (shown_content (some content) ≡ some shown) × IsCut content shown)
unfolding shown_content
shown_content-IsCut [] = inl (refl, refl)
shown_content-IsCut (c ∷ content) = inr (cut (c ∷ content), refl, cut-IsCut (c ∷ content))
