-- ===== src/Prelude/Text.antt =====
-- Text: joining, lengths and decimal printing. A character stands for a byte of a `std::string`.
use Prim.Native.Nat.{ℕ, zero, suc, ◌+◌, ◌/◌, ◌%◌}
use Prim.Native.Char.{code}
use Prim.Native.String.{String}
use mathlib.Core.List.{List, [], ◌∷◌}
use mathlib.Core.Path.{◌≡◌, refl}
use epics_tcl.Prelude.Tests.{ltb, if◌then◌else◌}
use epics_tcl.Prelude.Int.{ℤ, pos, negsuc}

-- A chain of `+=` on a string that starts empty.
abbrev pub join : List String → String
join [] = ""
join (s ∷ ss) = Prim.Native.String.◌++◌ s (join ss)

abbrev pub codes : String → List ℕ
codes String.[] = []
codes (String.◌∷◌ c s) = code c ∷ codes s

-- `strlen`, of a text with no NUL.
abbrev pub text_length : String → ℕ
text_length String.[] = 0
text_length (String.◌∷◌ c s) = suc (text_length s)

unfoldable pub digit : ℕ → String
digit d = Prim.Native.String.slice "0123456789" d (d + 1)

-- The digits of `n` before `rest`, on fuel.
unfoldable pub digits : ℕ → ℕ → String → String
digits zero n rest = rest
digits (suc f) n rest =
    let s = Prim.Native.String.◌++◌ (digit (n % 10)) rest in
    let more = digits f (n / 10) s in if ltb n 10 then s else more

-- `sprintf("%ld")`: a number below 10 ^ f has f digits at most, so that the fuel `suc n` is enough.
unfoldable pub print_nat : ℕ → String
unfolding digit digits
print_nat n = digits (suc n) n ""

unfoldable pub print_int : ℤ → String
unfolding print_nat
print_int (pos n) = print_nat n
print_int (negsuc n) = Prim.Native.String.◌++◌ "-" (print_nat (suc n))

print_int_test : print_int (negsuc 1204) ≡ "-1205"
unfolding print_int
print_int_test = refl
