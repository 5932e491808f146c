-- ===== src/Converter/Vectors.antt =====
-- The vectors of the converters against their single values.
use mathlib.Core.List.{head?}
use epics_tcl.Prelude.{
  ℕ, zero, suc, ◌+◌, ◌<◌, ◌≡◌, refl, ap, String, List, [], ◌∷◌, some, length, arith,
}
use epics_tcl.Ca.{GrEnum, EventArgs, Platform}
use epics_tcl.Converter.Loop.{collect, length-collect}
use epics_tcl.Converter.EnumConverter.{learn, convert, collect_enums}
use epics_tcl.Converter.{Converter, string, integer, float, enum, call, get_vector}

length-collect_enums :
    (allowed : List String) (items : ℕ → GrEnum) (n i : ℕ)
    → length (collect_enums allowed items n i).1 ≡ n
unfolding collect_enums
length-collect_enums allowed items zero i = refl
length-collect_enums allowed items (suc n) i =
    ap suc (length-collect_enums (convert allowed (items i)).0 items n (i + 1))

learn-learn : (allowed : List String) (e : GrEnum) → learn (learn allowed e) e ≡ learn allowed e
unfolding learn
learn-learn [] e = ground arith
learn-learn (s ∷ ss) e = refl

-- A vector has `count` elements, whatever the converter's class.
pub length-get_vector :
    (p : Platform) (k : Converter) (args : EventArgs) → length (get_vector p k args).1 ≡ args.count
unfolding get_vector
length-get_vector p string args = length-collect _ args.count 0
length-get_vector p integer args = length-collect _ args.count 0
length-get_vector p float args = length-collect _ args.count 0
length-get_vector p (enum allowed) args = length-collect_enums allowed args.dbr.enums args.count 0

head-collect :
    (convert : ℕ → String) (n i : ℕ) → 0 < n → head? (collect convert n i) ≡ some (convert i)
unfolding collect
head-collect convert zero i h = absurd (omega arith)
head-collect convert (suc n) i h = refl

head-collect_enums :
    (allowed : List String) (items : ℕ → GrEnum) (n : ℕ)
    → 0 < n
    → head? (collect_enums (convert allowed (items 0)).0 items n 0).1
      ≡ some (convert allowed (items 0)).1
unfolding collect_enums
head-collect_enums allowed items zero h = absurd (omega arith)
head-collect_enums allowed items (suc n) h = rw (learn-learn allowed (items 0))

-- The first element of the vector taken right after the single value is that value.
pub head-get_vector :
    (p : Platform) (k : Converter) (args : EventArgs)
    → 0 < args.count
    → head? (get_vector p (call p k args).0 args).1 ≡ some (call p k args).1
unfolding get_vector call
head-get_vector p string args h = head-collect _ args.count 0 h
head-get_vector p integer args h = head-collect _ args.count 0 h
head-get_vector p float args h = head-collect _ args.count 0 h
head-get_vector p (enum allowed) args h = head-collect_enums allowed args.dbr.enums args.count h
