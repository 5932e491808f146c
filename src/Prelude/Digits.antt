-- ===== src/Prelude/Digits.antt =====
-- Decimal digits: the characters that they are, and how many a number has.
use Prim.Native.Nat.pow
use Prim.Native.Nat.{ℕ, ◌-◌, zero, suc, ◌+◌, ◌*◌, ◌/◌, ◌%◌, ◌^◌, ◌<◌, ◌≤◌}
use Prim.Native.Char.{Char, code}
use Prim.Native.String.{String}
use Prim.Native.String.append
use mathlib.Core.Path.{◌≡◌, refl, ap, ◌∙◌}
use mathlib.Core.Logic.{inl, inr}
use mathlib.Core.Bool.{true}
use native.Mathlib.Omega.{arith}
use epics_tcl.Prelude.Tests.{Bool-cases, ltb}
use epics_tcl.Prelude.Text.{digit, digits, text_length, print_nat, print_int}
use epics_tcl.Prelude.Int.{ℤ, pos, negsuc}

-- A two's complement integer of w bits.
abbrev pub Fits : ℕ → ℤ → Type 0
Fits w (pos n) = n < 2 ^ (w - 1)
Fits w (negsuc n) = n < 2 ^ (w - 1)

-- A claim about a digit, from its ten cases.
digit-cases :
    (P : ℕ → Type 0)
    → P 0
    → P 1
    → P 2
    → P 3
    → P 4
    → P 5
    → P 6
    → P 7
    → P 8
    → P 9
    → (d : ℕ) → d < 10
    → P d
digit-cases P a0 a1 a2 a3 a4 a5 a6 a7 a8 a9 zero h = a0
digit-cases P a0 a1 a2 a3 a4 a5 a6 a7 a8 a9 (suc zero) h = a1
digit-cases P a0 a1 a2 a3 a4 a5 a6 a7 a8 a9 (suc (suc zero)) h = a2
digit-cases P a0 a1 a2 a3 a4 a5 a6 a7 a8 a9 (suc (suc (suc zero))) h = a3
digit-cases P a0 a1 a2 a3 a4 a5 a6 a7 a8 a9 (suc (suc (suc (suc zero)))) h = a4
digit-cases P a0 a1 a2 a3 a4 a5 a6 a7 a8 a9 (suc (suc (suc (suc (suc zero))))) h = a5
digit-cases P a0 a1 a2 a3 a4 a5 a6 a7 a8 a9 (suc (suc (suc (suc (suc (suc zero)))))) h = a6
digit-cases P a0 a1 a2 a3 a4 a5 a6 a7 a8 a9 (suc (suc (suc (suc (suc (suc (suc zero))))))) h = a7
digit-cases P a0 a1 a2 a3 a4 a5 a6 a7 a8 a9 (suc (suc (suc (suc (suc (suc (suc (suc zero)))))))) h =
    a8
digit-cases P a0 a1 a2 a3 a4 a5 a6 a7 a8 a9
      (suc (suc (suc (suc (suc (suc (suc (suc (suc zero))))))))) h =
    a9
digit-cases P a0 a1 a2 a3 a4 a5 a6 a7 a8 a9
      (suc (suc (suc (suc (suc (suc (suc (suc (suc (suc d)))))))))) h =
    absurd (omega (arith, h))

abbrev app : String → String → String
app = Prim.Native.String.◌++◌

-- The digit `d` before a text.
abbrev pub put : ℕ → String → String
put d rest = Prim.Native.String.◌++◌ (digit d) rest

one_character : (c : Char) (rest : String) → app (String.◌∷◌ c String.[]) rest ≡ String.◌∷◌ c rest
one_character c rest = append.cons c String.[] rest ∙ ap (λ s. String.◌∷◌ c s) (append.nil rest)

pub put-cons :
    (rest : String) (d : ℕ)
    → d < 10
    → (c : Char) × ((put d rest ≡ String.◌∷◌ c rest) × (code c ≡ 48 + d))
unfolding digit
put-cons rest =
    let at : (c : Char) → (app (String.◌∷◌ c String.[]) rest ≡ String.◌∷◌ c rest) =
      λ c. one_character c rest in
    digit-cases (λ d. (c : Char) × ((put d rest ≡ String.◌∷◌ c rest) × (code c ≡ 48 + d)))
      (_, (at "0", refl)) (_, (at "1", refl)) (_, (at "2", refl)) (_, (at "3", refl))
      (_, (at "4", refl)) (_, (at "5", refl)) (_, (at "6", refl)) (_, (at "7", refl))
      (_, (at "8", refl)) (_, (at "9", refl))

pub text_length-append : (s t : String) → text_length (app s t) ≡ text_length s + text_length t
text_length-append String.[] t = ap text_length (append.nil t) ∙ omega arith
text_length-append (String.◌∷◌ c s) t =
    ap text_length (append.cons c s t) ∙ omega (arith, text_length-append s t)

text_length-put :
    (rest : String) (d : ℕ) → d < 10 → text_length (put d rest) ≡ suc (text_length rest)
text_length-put rest d h = let (c, (e, n)) = put-cons rest d h in ap text_length e

text_length-digits :
    (k f n : ℕ) (rest : String)
    → n < 10 ^ suc k
    → text_length (digits f n rest) ≤ suc k + text_length rest
unfolding digits
text_length-digits k zero n rest h = omega arith
text_length-digits zero (suc f) n rest h =
    let one = text_length-put rest (n % 10) (omega arith) in
    let small : ltb n 10 ≡ true = ground (arith, h) in rw small (omega (arith, one))
text_length-digits (suc k) (suc f) n rest h =
    let one = text_length-put rest (n % 10) (omega arith) in
    let power : 10 ^ suc (suc k) ≡ 10 ^ suc k * 10 = pow.suc 10 (suc k) in
    let fewer : n / 10 < 10 ^ suc k = omega (arith, h, power) in
    let more = text_length-digits k f (n / 10) (put (n % 10) rest) fewer in
    elim (Bool-cases (ltb n 10)) [
      | inl e ↦ rw e (omega (arith, one))
      | inr e ↦ rw e (omega (arith, one, more))
    ]

-- A number below 10 ^ k has k digits at most, where k is not 0.
pub text_length-print_nat : (k n : ℕ) → n < 10 ^ suc k → text_length (print_nat n) ≤ suc k
unfolding print_nat
text_length-print_nat k n h = omega (arith, text_length-digits k (suc n) n "" h)

-- An `int` of 32 bits is printed with 11 characters at most.
pub text_length-print_int : (z : ℤ) → Fits 32 z → text_length (print_int z) ≤ 11
unfolding print_int
text_length-print_int (pos n) h = omega (arith, text_length-print_nat 9 n (omega (arith, h)))
text_length-print_int (negsuc n) h =
    let digits = text_length-print_nat 9 (suc n) (omega (arith, h)) in
    omega (arith, digits, text_length-append "-" (print_nat (suc n)))
