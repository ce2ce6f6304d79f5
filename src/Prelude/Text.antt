-- ===== src/Prelude/Text.antt =====
-- Text as the list of its code points, with the `str` operations that the source calls.
use Prim.Native.Nat.{ℕ, ◌+◌}
use Prim.Native.Char.{code}
use Prim.Native.String.{String}
use mathlib.Core.Path.{◌≡◌, refl}
use mathlib.Core.Bool.{Bool, true, false, ◌&&◌, ◌||◌}
use mathlib.Core.Option.{Option, none, some}
use mathlib.Core.List.{List, [], ◌∷◌, ◌++◌}
use native.Mathlib.Omega.{arith}
use stateset_icp_handler.Prelude.Tests.{leb, eqb, if◌then◌else◌}

abbrev pub codes : String → List ℕ
codes String.[] = []
codes (String.◌∷◌ c s) = code c ∷ codes s

-- `u8::to_ascii_lowercase`
unfoldable pub to_ascii_lowercase : ℕ → ℕ
to_ascii_lowercase c = if leb b'A' c && leb c b'Z' then c + 32 else c

-- `str::eq_ignore_ascii_case`
unfoldable pub eq_ignore_ascii_case : List ℕ → List ℕ → Bool
unfolding to_ascii_lowercase
eq_ignore_ascii_case [] [] = true
eq_ignore_ascii_case (a ∷ as') (b ∷ bs) =
    eqb (to_ascii_lowercase a) (to_ascii_lowercase b) && eq_ignore_ascii_case as' bs
eq_ignore_ascii_case _ _ = false

-- `str::split_once`
unfoldable pub split_once : ℕ → List ℕ → Option (List ℕ × List ℕ)
split_once c [] = none
split_once c (a ∷ s) =
    let rest = split_once c s in
    if eqb a c then some ([], s) else elim rest [ none ↦ none | some (l, r) ↦ some (a ∷ l, r) ]

-- `str::strip_prefix` of one character
abbrev pub strip_prefix : ℕ → List ℕ → Option (List ℕ)
strip_prefix c [] = none
strip_prefix c (a ∷ s) = if eqb a c then some s else none

-- `str::strip_suffix` of one character
unfoldable pub strip_suffix : ℕ → List ℕ → Option (List ℕ)
strip_suffix c [] = none
strip_suffix c (a ∷ []) = if eqb a c then some [] else none
strip_suffix c (a ∷ b ∷ s) = elim (strip_suffix c (b ∷ s)) [ none ↦ none | some r ↦ some (a ∷ r) ]

pub strip_suffix-append : (c : ℕ) (s : List ℕ) → strip_suffix c (s ++ c ∷ []) ≡ some s
unfolding strip_suffix
strip_suffix-append c [] = ground arith
strip_suffix-append c (a ∷ []) = ground arith
strip_suffix-append c (a ∷ b ∷ s) = rw (strip_suffix-append c (b ∷ s), strip_suffix)

pub strip_suffix-append_ne :
    (c d : ℕ) (s : List ℕ) → eqb d c ≡ false → strip_suffix c (s ++ d ∷ []) ≡ none
unfolding strip_suffix
strip_suffix-append_ne c d [] h = ground arith
strip_suffix-append_ne c d (a ∷ []) h = ground arith
strip_suffix-append_ne c d (a ∷ b ∷ s) h = rw (strip_suffix-append_ne c d (b ∷ s) h, strip_suffix)

unfoldable pub codes_eq : List ℕ → List ℕ → Bool
codes_eq [] [] = true
codes_eq (a ∷ s) (b ∷ t) = eqb a b && codes_eq s t
codes_eq _ _ = false

pub codes_eq-true : (s t : List ℕ) → codes_eq s t ≡ true → s ≡ t
unfolding codes_eq
codes_eq-true [] [] h = refl
codes_eq-true [] (b ∷ t) h = cc
codes_eq-true (a ∷ s) [] h = cc
codes_eq-true (a ∷ s) (b ∷ t) h = ground (arith, codes_eq-true s t)

-- `char::is_whitespace`: the code points of Unicode's White_Space.
unfoldable pub is_whitespace : ℕ → Bool
is_whitespace c =
    (leb 9 c && leb c 13)
    || eqb c 32
    || eqb c 0x85
    || eqb c 0xa0
    || eqb c 0x1680
    || (leb 0x2000 c && leb c 0x200a)
    || eqb c 0x2028
    || eqb c 0x2029
    || eqb c 0x202f
    || eqb c 0x205f
    || eqb c 0x3000

unfoldable pub trim_start : List ℕ → List ℕ
unfolding is_whitespace
trim_start [] = []
trim_start (c ∷ s) = let rest = trim_start s in if is_whitespace c then rest else c ∷ s

-- Blanks at the end go, from the back.
unfoldable pub trim_end : List ℕ → List ℕ
unfolding is_whitespace
trim_end [] = []
trim_end (c ∷ s) = elim (trim_end s) [
  | [] ↦ if is_whitespace c then [] else c ∷ []
  | d ∷ r ↦ c ∷ d ∷ r
]

-- `str::trim`
unfoldable pub trim : List ℕ → List ℕ
unfolding trim_start trim_end
trim s = trim_end (trim_start s)

-- `str::strip_prefix` of a text
unfoldable pub strip_prefix_str : List ℕ → List ℕ → Option (List ℕ)
strip_prefix_str [] s = some s
strip_prefix_str (p ∷ ps) [] = none
strip_prefix_str (p ∷ ps) (c ∷ s) = elim (eqb p c) [ true ↦ strip_prefix_str ps s | false ↦ none ]
