-- ===== src/Mandate/Jurisdiction.antt =====
-- `jurisdiction_authorizes` of src/mandate.rs.
use stateset_icp_handler.Prelude.{
  ℕ, ◌≡◌, ◌≢◌, ◌↔◌, inl, inr, refl, Bool, true, false, none, some, List, [], ◌∷◌, ◌++◌, arith,
  if◌then◌else◌, Option-cases, Bool-cases,
}
use stateset_icp_handler.Prelude.Text.{to_ascii_lowercase, eq_ignore_ascii_case, split_once}

unfoldable pub jurisdiction_authorizes : List ℕ → List ℕ → Bool
jurisdiction_authorizes allowed actual =
    if eq_ignore_ascii_case allowed actual then true else elim (split_once b'-' actual) [
      | some (country, _) ↦ eq_ignore_ascii_case allowed country
      | none ↦ false
    ]

-- Two texts that differ at most in the case of ASCII letters.
abbrev pub SameLetters : List ℕ → List ℕ → Type 0
SameLetters [] [] = Unit
SameLetters (a ∷ s) (b ∷ t) = (to_ascii_lowercase a ≡ to_ascii_lowercase b) × SameLetters s t
SameLetters _ _ = ⊥

abbrev pub Without : ℕ → List ℕ → Type 0
Without c [] = Unit
Without c (a ∷ s) = (a ≢ c) × Without c s

-- `actual` is `allowed`, or a subdivision of the country `allowed`.
pub data Covers (allowed actual : List ℕ) : Type 0 where
  same : SameLetters allowed actual → Covers allowed actual
  subdivision :
      (country sub : List ℕ)
      → actual ≡ country ++ b'-' ∷ sub
      → Without b'-' country
      → SameLetters allowed country
      → Covers allowed actual

eq_ignore_ascii_case_sound : (s t : List ℕ) → eq_ignore_ascii_case s t ≡ true → SameLetters s t
unfolding eq_ignore_ascii_case
eq_ignore_ascii_case_sound [] [] h = tt
eq_ignore_ascii_case_sound [] (b ∷ t) h = cc
eq_ignore_ascii_case_sound (a ∷ s) [] h = cc
eq_ignore_ascii_case_sound (a ∷ s) (b ∷ t) h = ground (arith, eq_ignore_ascii_case_sound s t)

eq_ignore_ascii_case_complete : (s t : List ℕ) → SameLetters s t → eq_ignore_ascii_case s t ≡ true
unfolding eq_ignore_ascii_case
eq_ignore_ascii_case_complete [] [] h = refl
eq_ignore_ascii_case_complete [] (b ∷ t) h = absurd h
eq_ignore_ascii_case_complete (a ∷ s) [] h = absurd h
eq_ignore_ascii_case_complete (a ∷ s) (b ∷ t) h = ground (arith, eq_ignore_ascii_case_complete s t)

split_once_sound :
    (c : ℕ) (s l r : List ℕ) → split_once c s ≡ some (l, r) → (s ≡ l ++ c ∷ r) × Without c l
unfolding split_once
split_once_sound c [] l r h = cc
split_once_sound c (a ∷ s) [] r h = ground arith
split_once_sound c (a ∷ s) (b ∷ l) r h = ground (arith, split_once_sound c s l r)

split_once-append : (c : ℕ) (l r : List ℕ) → Without c l → split_once c (l ++ c ∷ r) ≡ some (l, r)
unfolding split_once
split_once-append c [] r h = ground arith
split_once-append c (a ∷ l) r h = rw (split_once-append c l r h.1) (ground arith)

authorizes-Covers :
    (allowed actual : List ℕ)
    → jurisdiction_authorizes allowed actual ≡ true
    → Covers allowed actual
unfolding jurisdiction_authorizes
authorizes-Covers allowed actual h = elim (Bool-cases (eq_ignore_ascii_case allowed actual)) [
  | inl e ↦ same (eq_ignore_ascii_case_sound allowed actual e)
  | inr e ↦ elim (Option-cases (split_once b'-' actual)) [
    | inl n ↦ absurd (ground arith)
    | inr ((country, sub), y) ↦
        let (shape, free) = split_once_sound b'-' actual country sub y in
        subdivision country sub shape free
          (eq_ignore_ascii_case_sound allowed country (ground arith))
  ]
]

Covers-authorizes :
    (allowed actual : List ℕ)
    → Covers allowed actual
    → jurisdiction_authorizes allowed actual ≡ true
unfolding jurisdiction_authorizes
Covers-authorizes allowed actual (same e) = rw (eq_ignore_ascii_case_complete allowed actual e)
Covers-authorizes allowed actual (subdivision country sub shape free e) = ground (
  arith,
  shape,
  split_once-append b'-' country sub free,
  eq_ignore_ascii_case_complete allowed country e,
)

-- A listed jurisdiction authorizes exactly itself and, where it is a country, the country's
-- subdivisions (`<country>-<rest>`), up to the case of ASCII letters.
pub jurisdiction_authorizes_iff :
    (allowed actual : List ℕ)
    → (jurisdiction_authorizes allowed actual ≡ true) ↔ Covers allowed actual
jurisdiction_authorizes_iff allowed actual =
    (authorizes-Covers allowed actual, Covers-authorizes allowed actual)
