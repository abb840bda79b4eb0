-- ===== src/Queries/Prefixes.antt =====
-- A query library that compares keys element by element, for runs at concrete keys.
use mathlib.Core.Logic.{ite}
use etl_nexus.Common.{
  Bool, true, false, ◌&&◌, String, [], ◌∷◌, ◌===◌, false≢true, ◌≡◌, refl, sym, ◌∙◌, eq_iff, inl,
  inr, arith, Bool-cases,
}
use etl_nexus.Registry.{FilterParams}
use etl_nexus.Queries.{RevisionField, Part, QueryKey}
use etl_nexus.Queries.Coverage.{MatchesPrefixes, MatchesOnlyPrefixes}

module _ (same_part : Part → Part → Bool) where
  unfoldable pub begins : QueryKey → QueryKey → Bool
  begins [] whole = true
  begins (part ∷ key) [] = false
  begins (part ∷ key) (other ∷ whole) = same_part part other && begins key whole

  pub begins-prefixes : ((part : Part) → same_part part part ≡ true) → MatchesPrefixes begins
  unfolding begins
  begins-prefixes same [] rest = refl
  begins-prefixes same (part ∷ key) rest = ground (arith, same part, begins-prefixes same key rest)

  pub begins-only_prefixes :
      ((part other : Part) → same_part part other ≡ true → other ≡ part)
      → MatchesOnlyPrefixes begins
  unfolding begins
  begins-only_prefixes same [] whole h = (whole, refl)
  begins-only_prefixes same (part ∷ key) [] h = absurd (false≢true h)
  begins-only_prefixes same (part ∷ key) (other ∷ whole) h =
      let (rest, e) = begins-only_prefixes same key whole (ground arith) in
      let eq : other ≡ part = same part other (ground arith) in (rest, cc)

String-discrete : Discrete String
String-discrete s t = elim (Bool-cases (s === t)) [
  | inl same ↦ yes ((eq_iff s t).0 same)
  | inr different ↦ no (λ e. false≢true (sym different ∙ (eq_iff s t).1 e))
]

FilterParams-discrete : Discrete FilterParams
FilterParams-discrete = hlevel String-discrete

RevisionField-discrete : Discrete RevisionField
RevisionField-discrete = hlevel

pub Part-discrete : Discrete Part
Part-discrete = hlevel (String-discrete, FilterParams-discrete, RevisionField-discrete)

abbrev pub same_part : Part → Part → Bool
same_part part other = ite (Part-discrete part other) true false

pub same_part-same : (part : Part) → same_part part part ≡ true
same_part-same part = elim (Part-discrete part part) as (λ d. ite d true false ≡ true) [
  | yes e ↦ refl
  | no n ↦ absurd (n refl)
]

pub same_part-equal : (part other : Part) → same_part part other ≡ true → other ≡ part
same_part-equal part other =
    elim (Part-discrete part other) as (λ d. ite d true false ≡ true → other ≡ part) [
      | yes e ↦ λ h. sym e
      | no n ↦ λ h. absurd (false≢true h)
    ]
