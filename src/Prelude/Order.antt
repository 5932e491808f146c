-- ===== src/Prelude/Order.antt =====
-- The order of `std::string`, byte by byte, and `std::set<string>` as its sorted list of texts.
use Prim.Native.Nat.{compare, Ordering}
use Prim.Native.Char.{code}
use Prim.Native.String.{String}
use mathlib.Core.Path.{◌≡◌, refl}
use mathlib.Core.Logic.{◌⊎◌, inl, inr}
use mathlib.Core.Bool.{Bool, true, false, ◌||◌}
use mathlib.Core.List.{List, [], ◌∷◌}
use native.Mathlib.Omega.{arith}
use text.Mathlib.Text.{◌==◌}
use text.Mathlib.TextEquality.{eq_iff, Char-path}
use epics_tcl.Prelude.Tests.{if◌then◌else◌, Bool-cases}

unfoldable pub string_lt : String → String → Bool
string_lt s String.[] = false
string_lt String.[] (String.◌∷◌ d t) = true
string_lt (String.◌∷◌ c s) (String.◌∷◌ d t) =
    let rest = string_lt s t in
    elim (compare (code c) (code d)) [
      | Ordering.lt ↦ true
      | Ordering.eq ↦ rest
      | Ordering.gt ↦ false
    ]

-- Two different texts are in order one way or the other.
pub string_lt_total : (s t : String) → string_lt s t ≡ false → (s ≡ t) ⊎ (string_lt t s ≡ true)
unfolding string_lt
string_lt_total String.[] String.[] h = inl refl
string_lt_total (String.◌∷◌ c s) String.[] h = inr refl
string_lt_total String.[] (String.◌∷◌ d t) h = cc
string_lt_total (String.◌∷◌ c s) (String.◌∷◌ d t) h =
    ground (arith, Char-path c d, string_lt_total s t)

-- `insert`, which keeps one copy.
unfoldable pub set_insert : String → List String → List String
set_insert s [] = s ∷ []
set_insert s (t ∷ ts) =
    let rest = set_insert s ts in
    if s == t then t ∷ ts else (if string_lt s t then s ∷ t ∷ ts else t ∷ rest)

abbrev pub IsSorted : List String → Type 0
IsSorted [] = Unit
IsSorted (s ∷ []) = Unit
IsSorted (s ∷ t ∷ ts) = (string_lt s t ≡ true) × IsSorted (t ∷ ts)

unfoldable pub contains : String → List String → Bool
contains s [] = false
contains s (t ∷ ts) = s == t || contains s ts

IsSorted-tail : (t : String) (ts : List String) → IsSorted (t ∷ ts) → IsSorted ts
IsSorted-tail t [] h = tt
IsSorted-tail t (u ∷ us) h = h.1

-- What stands at the head of a set after an insertion into a list that follows `s`.
set_insert-after :
    (s t : String) (ts : List String)
    → IsSorted (s ∷ ts)
    → string_lt s t ≡ true
    → IsSorted (set_insert t ts)
    → IsSorted (s ∷ set_insert t ts)
unfolding set_insert
set_insert-after s t [] h lt r = (lt, tt)
set_insert-after s t (u ∷ us) h lt r = ground (arith, eq_iff t u)

pub set_insert-IsSorted : (s : String) (ts : List String) → IsSorted ts → IsSorted (set_insert s ts)
unfolding set_insert
set_insert-IsSorted s [] h = tt
set_insert-IsSorted s (t ∷ ts) h = elim (Bool-cases (s == t)) [
  | inl same ↦ rw same h
  | inr other ↦ rw other (elim (Bool-cases (string_lt s t)) [
    | inl lt ↦ rw lt (lt, h)
    | inr ge ↦ rw ge (
        set_insert-after t s ts h (ground (arith, string_lt_total s t ge, eq_iff s t))
          (set_insert-IsSorted s ts (IsSorted-tail t ts h)))
  ])
]

pub contains-set_insert :
    (x s : String) (ts : List String) → contains x (set_insert s ts) ≡ (x == s || contains x ts)
unfolding contains set_insert
contains-set_insert x s [] = refl
contains-set_insert x s (t ∷ ts) =
    ground (arith, contains-set_insert x s ts, eq_iff s t, eq_iff x s, eq_iff x t)
