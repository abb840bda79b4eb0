-- ===== src/Shared/UserInitials.antt =====
-- frontend/src/components/shared/UserInitials.tsx: the letters shown for a user. `upper` stands for
-- `toUpperCase`.
mod Bounded
use etl_nexus.Common.{ℕ, List, [], ◌∷◌, ◌++◌, Text, take, split_on}

-- `w[0]`, which joins as nothing where the word is empty
abbrev pub first_letter : Text → Text
first_letter [] = []
first_letter (c ∷ word) = c ∷ []

abbrev pub first_letters : List Text → Text
first_letters [] = []
first_letters (word ∷ words) = first_letter word ++ first_letters words

unfoldable pub initials : (Text → Text) → Text → Text
unfolding split_on
initials upper name = take 2 (upper (first_letters (split_on b' ' name)))
