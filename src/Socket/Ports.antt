-- ===== src/Socket/Ports.antt =====
-- `Service` of CSocket.cpp on the decimal text of a number, and what `Connect` makes of it.
use epics_tcl.Prelude.{
  ℕ, zero, suc, ◌+◌, ◌-◌, ◌*◌, ◌/◌, ◌%◌, ◌<◌, ◌≡◌, refl, sym, ap, ◌∙◌, arith, String, true, false,
  some, inl, inr, Bool-cases, ltb, leb, nat_eq,
}
use epics_tcl.Prelude.Int.{pos}
use epics_tcl.Prelude.{digits, print_nat}
use epics_tcl.Prelude.Digits.{put, put-cons}
use epics_tcl.Socket.Service.{scan_digits, scan_nat, scan_int}

scan_digits-put :
    (acc : ℕ) (rest : String) (d : ℕ)
    → d < 10
    → scan_digits acc (put d rest) ≡ scan_digits (acc * 10 + d) rest
unfolding scan_digits
scan_digits-put acc rest d h =
    let (c, (e, n)) = put-cons rest d h in
    let t : leb 48 (48 + d) ≡ true = ground arith in
    let u : leb (48 + d) 57 ≡ true = ground (arith, h) in
    let m : 48 + d - 48 ≡ d = omega arith in rw (e, n, t, u, m) refl

-- A text that starts with a digit is a number without blanks or a sign.
scan_int-put :
    (rest : String) (d : ℕ)
    → d < 10
    → scan_int (put d rest) ≡ some (pos (scan_digits 0 (put d rest)))
unfolding scan_int scan_nat scan_digits
scan_int-put rest d h =
    let (c, (e, n)) = put-cons rest d h in
    let t : leb 48 (48 + d) ≡ true = ground arith in
    let u : leb (48 + d) 57 ≡ true = ground (arith, h) in
    let blank : nat_eq (48 + d) 32 ≡ false = ground arith in
    let tab : leb 9 (48 + d) ≡ true = ground arith in
    let control : leb (48 + d) 13 ≡ false = ground arith in
    let minus : nat_eq (48 + d) 45 ≡ false = ground arith in
    let plus : nat_eq (48 + d) 43 ≡ false = ground arith in
    let z : 0 * 10 + (48 + d - 48) ≡ 48 + d - 48 = omega arith in
    rw (e, n, blank, tab, control, minus, plus, t, u)
      (ap (λ a. some (pos (scan_digits a rest))) (sym z))

-- The printed digits of `n`, read back.
scan_digits-digits :
    (f n : ℕ) (rest : String) → n < f → scan_digits 0 (digits f n rest) ≡ scan_digits n rest
unfolding digits
scan_digits-digits zero n rest h = absurd (omega (arith, h))
scan_digits-digits (suc f) n rest h = elim (Bool-cases (ltb n 10)) [
  | inl e ↦
      let same : 0 * 10 + n % 10 ≡ n = ground arith in
      rw e (scan_digits-put 0 rest (n % 10) (omega arith) ∙ ap (λ a. scan_digits a rest) same)
  | inr e ↦
      let same : n / 10 * 10 + n % 10 ≡ n = omega arith in
      let fewer : n / 10 < f = ground arith in
      rw e (
        scan_digits-digits f (n / 10) (put (n % 10) rest) fewer
        ∙ scan_digits-put (n / 10) rest (n % 10) (omega arith)
        ∙ ap (λ a. scan_digits a rest) same)
]

digits-put :
    (f n : ℕ) (rest : String)
    → n < f
    → (s : String) × (d : ℕ) × ((d < 10) × (digits f n rest ≡ put d s))
unfolding digits
digits-put zero n rest h = absurd (omega (arith, h))
digits-put (suc f) n rest h = elim (Bool-cases (ltb n 10)) [
  | inl e ↦ (rest, n % 10, (omega arith, rw e refl))
  | inr e ↦
      let fewer : n / 10 < f = ground arith in
      let (s, d, (few, at)) = digits-put f (n / 10) (put (n % 10) rest) fewer in
      (s, d, (few, rw e at))
]

-- `%d` reads back the number that it printed.
pub scan_int-print_nat : (n : ℕ) → scan_int (print_nat n) ≡ some (pos n)
unfolding print_nat scan_digits
scan_int-print_nat n =
    let (s, d, (few, at)) = digits-put (suc n) n "" (omega arith) in
    let value : scan_digits 0 (digits (suc n) n "") ≡ n =
      scan_digits-digits (suc n) n "" (omega arith) in
    rw at (scan_int-put s d few) ∙ ap (λ v. some (pos v)) (ap (scan_digits 0) (sym at) ∙ value)
