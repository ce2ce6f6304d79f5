-- ===== src/Prelude/Sequences.antt =====
-- Lists as the source's iterators and `Vec` use them: `filter_map`, a stable `sort_by`, a predicate of
-- every element, and the order of a sorted list.
use Prim.Native.Nat.{ℕ, zero, suc, ◌≤◌}
use mathlib.Core.Path.{◌≡◌, refl, ap}
use mathlib.Core.Logic.{inl, inr}
use mathlib.Core.Bool.{Bool, true, false}
use mathlib.Core.Option.{Option, none, some}
use mathlib.Core.List.{List, [], ◌∷◌}
use native.Mathlib.Omega.{arith}
use stateset_icp_handler.Prelude.Options.{length, take, filter_by}
use stateset_icp_handler.Prelude.Tests.{Bool-cases}

abbrev pub All {ℓ κ} : {A : Type ℓ} → (A → Type κ) → List A → Type κ
All P [] = Unit
All P (x ∷ xs) = P x × All P xs

module _ {ℓ κ} {A : Type ℓ} (P : A → Type κ) where
  pub All-filter : (p : A → Bool) (xs : List A) → All P xs → All P (filter_by p xs)
  All-filter p [] h = h
  All-filter p (x ∷ xs) h =
      elim (p x) as (λ b. All P (elim b [ true ↦ x ∷ filter_by p xs | false ↦ filter_by p xs ])) [
        | true ↦ (h.0, All-filter p xs h.1)
        | false ↦ All-filter p xs h.1
      ]

  pub All-take : (n : ℕ) (xs : List A) → All P xs → All P (take n xs)
  All-take zero xs h = tt
  All-take (suc n) [] h = tt
  All-take (suc n) (x ∷ xs) h = (h.0, All-take n xs h.1)

  pub All-everywhere : ((a : A) → P a) → (xs : List A) → All P xs
  All-everywhere h [] = tt
  All-everywhere h (x ∷ xs) = (h x, All-everywhere h xs)

pub All-imp {ℓ} :
    {A : Type ℓ} (P Q : A → Type 0) → ((a : A) → P a → Q a) → (xs : List A) → All P xs → All Q xs
All-imp P Q imp [] h = tt
All-imp P Q imp (x ∷ xs) h = (imp x h.0, All-imp P Q imp xs h.1)

pub All-imp2 {ℓ} :
    {A : Type ℓ} (P Q R : A → Type 0)
    → ((a : A) → P a → Q a → R a)
    → (xs : List A) → All P xs
    → All Q xs
    → All R xs
All-imp2 P Q R imp [] h k = tt
All-imp2 P Q R imp (x ∷ xs) h k = (imp x h.0 k.0, All-imp2 P Q R imp xs h.1 k.1)

module _ {ℓ} {A : Type ℓ} where
  pub take-length : (n : ℕ) (xs : List A) → length (take n xs) ≤ n
  take-length zero xs = omega arith
  take-length (suc n) [] = omega arith
  take-length (suc n) (x ∷ xs) = omega (arith, take-length n xs)

  pub take_all : (n : ℕ) (xs : List A) → length xs ≤ n → take n xs ≡ xs
  take_all zero [] h = refl
  take_all zero (x ∷ xs) h = absurd (omega arith)
  take_all (suc n) [] h = refl
  take_all (suc n) (x ∷ xs) h = ap (λ r. x ∷ r) (take_all n xs (omega arith))

module _ {ℓ} {A : Type ℓ} (p : A → Bool) where
  pub filter_by-true :
      (x : A) (xs : List A) → p x ≡ true → filter_by p (x ∷ xs) ≡ x ∷ filter_by p xs
  filter_by-true x xs e = rw (e, filter_by) refl

  pub filter_by-false : (x : A) (xs : List A) → p x ≡ false → filter_by p (x ∷ xs) ≡ filter_by p xs
  filter_by-false x xs e = rw (e, filter_by) refl

-- `Iterator::filter_map`
unfoldable pub filter_map {ℓ κ} : {A : Type ℓ} {B : Type κ} → (A → Option B) → List A → List B
filter_map f [] = []
filter_map f (x ∷ xs) = let rest = filter_map f xs in elim (f x) [ none ↦ rest | some y ↦ y ∷ rest ]

module _ {ℓ κ} {A : Type ℓ} {B : Type κ} (f : A → Option B) where
  pub filter_map-none : (x : A) (xs : List A) → f x ≡ none → filter_map f (x ∷ xs) ≡ filter_map f xs
  unfolding filter_map
  filter_map-none x xs e = rw (e, filter_map) refl

  pub filter_map-some :
      (x : A) (xs : List A) (y : B) → f x ≡ some y → filter_map f (x ∷ xs) ≡ y ∷ filter_map f xs
  unfolding filter_map
  filter_map-some x xs y e = rw (e, filter_map) refl

module _ {ℓ} {A : Type ℓ} (before : A → A → Bool) where
  abbrev pub place : A → List A → List A
  place x [] = x ∷ []
  place x (y ∷ ys) =
      let rest = place x ys in elim (before y x) [ true ↦ y ∷ rest | false ↦ x ∷ y ∷ ys ]

  -- `sort_by`, which is stable: `before` is the comparison's `Less`.
  unfoldable pub sort_by : List A → List A
  sort_by [] = []
  sort_by (x ∷ xs) = place x (sort_by xs)

  All-place : (P : A → Type 0) (x : A) (xs : List A) → P x → All P xs → All P (place x xs)
  All-place P x [] p h = (p, tt)
  All-place P x (y ∷ ys) p h =
      elim (before y x) as (λ b. All P (elim b [ true ↦ y ∷ place x ys | false ↦ x ∷ y ∷ ys ])) [
        | true ↦ (h.0, All-place P x ys p h.1)
        | false ↦ (p, h)
      ]

  pub All-sort : (P : A → Type 0) (xs : List A) → All P xs → All P (sort_by xs)
  unfolding sort_by
  All-sort P [] h = tt
  All-sort P (x ∷ xs) h = All-place P x (sort_by xs) h.0 (All-sort P xs h.1)

  -- No element stands after one that it goes before.
  abbrev pub IsSorted : List A → Type 0
  IsSorted [] = Unit
  IsSorted (x ∷ xs) = All (λ y. before y x ≡ false) xs × IsSorted xs

  pub take-IsSorted : (n : ℕ) (xs : List A) → IsSorted xs → IsSorted (take n xs)
  take-IsSorted zero xs h = tt
  take-IsSorted (suc n) [] h = tt
  take-IsSorted (suc n) (x ∷ xs) h =
      (All-take (λ y. before y x ≡ false) n xs h.0, take-IsSorted n xs h.1)

  module _ (flip : (x y : A) → before y x ≡ true → before x y ≡ false)
      (chain : (x y z : A) → before y x ≡ false → before z y ≡ false → before z x ≡ false) where
    place-IsSorted : (x : A) (xs : List A) → IsSorted xs → IsSorted (place x xs)
    place-IsSorted x [] h = (tt, tt)
    place-IsSorted x (y ∷ ys) h = elim (Bool-cases (before y x)) [
      | inl e ↦
          rw (e, IsSorted)
            (All-place (λ z. before z y ≡ false) x ys (flip x y e) h.0, place-IsSorted x ys h.1)
      | inr e ↦ rw (e, IsSorted) ((e, All-imp _ _ (λ z. chain x y z e) ys h.0), h)
    ]

    pub sort-IsSorted : (xs : List A) → IsSorted (sort_by xs)
    unfolding sort_by
    sort-IsSorted [] = tt
    sort-IsSorted (x ∷ xs) = place-IsSorted x (sort_by xs) (sort-IsSorted xs)
