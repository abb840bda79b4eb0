-- ===== src/Shared/UserInitials/Bounded.antt =====
-- The initials at some names.
use etl_nexus.Common.{◌≤◌, Text, codes, length, length-take, split_on, ◌≡◌, refl, arith}
use etl_nexus.Shared.UserInitials.{first_letters, initials}

-- Whatever the name and the upper case of its letters, two code units are shown at most.
initials-bounded : (upper : Text → Text) (name : Text) → length (initials upper name) ≤ 2
unfolding initials
initials-bounded upper name =
    omega (arith, length-take 2 (upper (first_letters (split_on b' ' name))))

two_words : initials (λ letters. letters) (codes "Ada Lovelace King") ≡ codes "AL"
unfolding initials split_on
two_words = refl

double_space : initials (λ letters. letters) (codes "Ada  Lovelace") ≡ codes "AL"
unfolding initials split_on
double_space = refl
