-- ===== src/Errors/Reasons.antt =====
-- The reasons that `CRangeError` gives, against its limits.
use epics_tcl.Prelude.{
  ℕ, ◌+◌, ◌-◌, ◌^◌, ◌<◌, ◌≤◌, ◌≡◌, ◌↔◌, refl, arith, String, List, [], ◌∷◌, Bool, true, false, none,
  some, text_length, join, print_int,
}
use epics_tcl.Prelude.Int.{ℤ, pos, negsuc}
use epics_tcl.Prelude.Digits.{Fits, text_length-append, text_length-print_int}
use epics_tcl.Errors.Base.{Exception, int_less}
use epics_tcl.Errors.RangeError.{
  RangeError, too_low, too_high, message, update_reason, new, copy, assign, set_low, set_high,
  set_requested, get_reason_text, reason_code,
}

-- The exceptions that the members make of `int` arguments.
pub data Made {X : Exception} : RangeError X → Type 0 where
  made :
      (low high requested : ℤ) (doing : String)
      → Fits 32 low
      → Fits 32 high
      → Fits 32 requested
      → Made (new low high requested doing)
  copied : {e : RangeError X} → Made e → Made (copy e)
  assigned : {e f : RangeError X} (same : Bool) → Made e → Made f → Made (assign same e f).0
  returned : {e f : RangeError X} (same : Bool) → Made e → Made f → Made (assign same e f).1
  low_set : {e : RangeError X} (n : ℤ) → Fits 32 n → Made e → Made (set_low n e)
  high_set : {e : RangeError X} (n : ℤ) → Fits 32 n → Made e → Made (set_high n e)
  requested_set : {e : RangeError X} (n : ℤ) → Fits 32 n → Made e → Made (set_requested n e)

abbrev IsCurrent : {X : Exception} → RangeError X → Type 0
IsCurrent e =
    (get_reason_text e ≡ message e.low e.high e.requested)
    × Fits 32 e.low
    × Fits 32 e.high
    × Fits 32 e.requested

Made-IsCurrent : {X : Exception} (e : RangeError X) → Made e → IsCurrent e
unfolding new copy assign update_reason set_low set_high set_requested get_reason_text
Made-IsCurrent e (made low high requested doing l h r) = (refl, l, h, r)
Made-IsCurrent e (copied m) = let (t, l, h, r) = Made-IsCurrent _ m in (refl, l, h, r)
Made-IsCurrent e (assigned true m n) = Made-IsCurrent _ m
Made-IsCurrent e (assigned false m n) = let (t, l, h, r) = Made-IsCurrent _ n in (refl, l, h, r)
Made-IsCurrent e (returned true m n) = let (t, l, h, r) = Made-IsCurrent _ m in (refl, l, h, r)
Made-IsCurrent e (returned false m n) = let (t, l, h, r) = Made-IsCurrent _ n in (refl, l, h, r)
Made-IsCurrent e (low_set n f m) = let (t, l, h, r) = Made-IsCurrent _ m in (refl, f, h, r)
Made-IsCurrent e (high_set n f m) = let (t, l, h, r) = Made-IsCurrent _ m in (refl, l, f, r)
Made-IsCurrent e (requested_set n f m) = let (t, l, h, r) = Made-IsCurrent _ m in (refl, l, h, f)

abbrev lengths : List String → ℕ
lengths [] = 0
lengths (s ∷ ss) = text_length s + lengths ss

text_length-join : (ss : List String) → text_length (join ss) ≡ lengths ss
text_length-join [] = refl
text_length-join (s ∷ ss) = omega (arith, text_length-append s (join ss), text_length-join ss)

length-message :
    (low high requested : ℤ)
    → Fits 32 low
    → Fits 32 high
    → Fits 32 requested
    → text_length (message low high requested) < 100
unfolding message
length-message low high requested l h r =
    let pieces =
      "Range error: "
      ∷ print_int requested
      ∷ " is outside the range [ "
      ∷ print_int low
      ∷ ".."
      ∷ print_int high
      ∷ "]"
      ∷ [] in
    omega (
      arith,
      text_length-join pieces,
      text_length-print_int low l,
      text_length-print_int high h,
      text_length-print_int requested r,
    )

-- Whatever was constructed, copied, assigned and set, with values that fit an `int`, the text of a
-- range error names the limits and the value that it has now, and fits the buffer of 100 bytes that it
-- is printed into, with the NUL.
pub reason_text_lem :
    {X : Exception} (e : RangeError X)
    → Made e
    → (get_reason_text e ≡ message e.low e.high e.requested)
      × (text_length (get_reason_text e) + 1 ≤ 100)
reason_text_lem e m =
    let (t, l, h, r) = Made-IsCurrent e m in
    let short = length-message e.low e.high e.requested l h r in (t, rw t (omega (arith, short)))

-- The distance from -2 ^ 31.
abbrev pub place : ℤ → ℕ
place (pos n) = 2 ^ 31 + n
place (negsuc n) = 2 ^ 31 - 1 - n

int_less_iff : (a b : ℤ) → Fits 32 a → Fits 32 b → (int_less a b ≡ true) ↔ (place a < place b)
int_less_iff (pos a) (pos b) f g = ground (arith, f, g)
int_less_iff (pos a) (negsuc b) f g = ground (arith, f, g)
int_less_iff (negsuc a) (pos b) f g = ground (arith, f, g)
int_less_iff (negsuc a) (negsuc b) f g = ground (arith, f, g)

-- The reason of a range error whose limits are in order is that the value is below the lower limit
-- exactly if it is, and above the upper one exactly if it is; and the assertion fails exactly if the value
-- is in the range.
pub reason_code_iff :
    {X : Exception} (e : RangeError X)
    → Fits 32 e.low
    → Fits 32 e.high
    → Fits 32 e.requested
    → place e.low ≤ place e.high
    → ((reason_code e ≡ some too_low) ↔ (place e.requested < place e.low))
      × ((reason_code e ≡ some too_high) ↔ (place e.high < place e.requested))
      × ((reason_code e ≡ none)
          ↔ ((place e.low ≤ place e.requested) × (place e.requested ≤ place e.high)))
unfolding reason_code
reason_code_iff e l h r order =
    ground (arith, order, int_less_iff e.high e.requested h r, int_less_iff e.requested e.low r l)
