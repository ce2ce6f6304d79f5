-- ===== src/Prelude/Keyed.antt =====
-- `HashMap` as an association list with one entry per key, over any key type with a Boolean equality.
use mathlib.Core.Path.{◌≡◌, refl}
use mathlib.Core.Logic.{◌↔◌}
use mathlib.Core.Bool.{Bool, true, false, ◌&&◌}
use mathlib.Core.Option.{Option, none, some}
use mathlib.Core.List.{List, [], ◌∷◌}
use native.Mathlib.Omega.{arith}
use Prim.Native.String.{String}
use text.Mathlib.Text.{◌==◌ as str_eq}
use text.Mathlib.TextEquality.{eq_iff}
use stateset_icp_handler.Prelude.Tests.{if◌then◌else◌}

-- A key type's test of equality.
pub record KeyEq {κ} (K : Type κ) : Type κ where
  pub same : K → K → Bool
  pub same_iff : (i j : K) → (same i j ≡ true) ↔ (i ≡ j)

instance abbrev pub string_eq : KeyEq String
string_eq = record { same_iff = eq_iff; same = str_eq }

abbrev pub ◌==◌ {κ} : {K : Type κ} ⦃eq : KeyEq K⦄ (i j : K) → Bool
◌==◌ ⦃eq⦄ i j = eq.same i j

infix 50 ◌==◌
abbrev pub pair_beq : String × String → String × String → Bool
pair_beq (a, b) (c, d) = str_eq a c && str_eq b d

pub pair_beq_iff : (p q : String × String) → (pair_beq p q ≡ true) ↔ (p ≡ q)
pair_beq_iff (a, b) (c, d) = ground (arith, eq_iff a c, eq_iff b d)

instance abbrev pub pair_eq : KeyEq (String × String)
pair_eq = record { same = pair_beq; same_iff = pair_beq_iff }

pub ==_refl {ℓ} : {A : Type ℓ} ⦃e : KeyEq A⦄ (a : A) → (a == a) ≡ true
==_refl ⦃e⦄ a = (e.same_iff a a).1 refl

abbrev pub Keyed {ℓ κ} : Type ℓ → Type κ → Type (ℓ ⊔ κ)
Keyed K V = List (K × V)

-- What `retain` keeps at a key.
abbrev pub kept {ℓ} : {V : Type ℓ} → (V → Bool) → Option V → Option V
kept p none = none
kept p (some v) = if p v then some v else none

module _ {ℓ κ} {K : Type ℓ} {V : Type κ} ⦃e : KeyEq K⦄ where
  unfoldable pub get : K → Keyed K V → Option V
  get k [] = none
  get k ((j, v) ∷ m) = if j == k then some v else get k m

  -- `HashMap::insert`: replaces the value of a key that is there.
  unfoldable pub insert : K → V → Keyed K V → Keyed K V
  insert k v [] = (k, v) ∷ []
  insert k v ((j, w) ∷ m) = if j == k then (k, v) ∷ m else (j, w) ∷ insert k v m

  unfoldable pub remove : K → Keyed K V → Keyed K V
  remove k [] = []
  remove k ((j, w) ∷ m) = let rest = remove k m in if j == k then rest else (j, w) ∷ rest

  -- `HashMap::retain` by a test of the value.
  unfoldable pub retain : (V → Bool) → Keyed K V → Keyed K V
  retain p [] = []
  retain p ((j, w) ∷ m) = let rest = retain p m in if p w then (j, w) ∷ rest else rest

  pub get-insert :
      (k j : K) (v : V) (m : Keyed K V)
      → get j (insert k v m) ≡ (if k == j then some v else get j m)
  unfolding get insert
  get-insert k j v [] = refl
  get-insert k j v ((i, w) ∷ m) =
      ground (arith, e.same_iff k j, e.same_iff i k, e.same_iff i j, get-insert k j v m)

  pub get-remove :
      (k j : K) (m : Keyed K V) → get j (remove k m) ≡ (if k == j then none else get j m)
  unfolding get remove
  get-remove k j [] = ground arith
  get-remove k j ((i, w) ∷ m) =
      ground (arith, e.same_iff k j, e.same_iff i k, e.same_iff i j, get-remove k j m)

  pub get-insert_self : (k : K) (v : V) (m : Keyed K V) → get k (insert k v m) ≡ some v
  get-insert_self k v m = ground (arith, get-insert k k v m, e.same_iff k k)

  pub get-insert_ne :
      (k j : K) (v : V) (m : Keyed K V) → (k == j) ≡ false → get j (insert k v m) ≡ get j m
  get-insert_ne k j v m h = ground (arith, get-insert k j v m)

  -- One entry per key.
  abbrev pub IsUnique : Keyed K V → Type κ
  IsUnique [] = Unit
  IsUnique ((k, v) ∷ m) = (get k m ≡ none) × IsUnique m

  pub insert-IsUnique : (k : K) (v : V) (m : Keyed K V) → IsUnique m → IsUnique (insert k v m)
  unfolding get insert
  insert-IsUnique k v [] u = (refl, tt)
  insert-IsUnique k v ((j, w) ∷ m) u =
      ground (arith, insert-IsUnique k v m u.1, get-insert k j v m, e.same_iff j k, e.same_iff k j)

  get-retain-none :
      (p : V → Bool) (k : K) (m : Keyed K V) → get k m ≡ none → get k (retain p m) ≡ none
  unfolding get retain
  get-retain-none p k [] h = refl
  get-retain-none p k ((j, w) ∷ m) h = ground (arith, get-retain-none p k m)

  pub get-retain :
      (p : V → Bool) (k : K) (m : Keyed K V) → IsUnique m → get k (retain p m) ≡ kept p (get k m)
  unfolding get retain
  get-retain p k [] u = refl
  get-retain p k ((j, w) ∷ m) u =
      ground (arith, get-retain p k m u.1, get-retain-none p j m u.0, e.same_iff j k)

  pub retain-IsUnique : (p : V → Bool) (m : Keyed K V) → IsUnique m → IsUnique (retain p m)
  unfolding retain
  retain-IsUnique p [] u = tt
  retain-IsUnique p ((j, w) ∷ m) u =
      ground (arith, retain-IsUnique p m u.1, get-retain-none p j m u.0)
