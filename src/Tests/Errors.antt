-- ===== src/Tests/Errors.antt =====
-- The properties of the range errors at an exception that was made, changed and assigned.
use epics_tcl.Prelude.{
  ℕ, ◌+◌, ◌<◌, ◌≤◌, ◌≡◌, ◌↔◌, refl, arith, String, true, false, none, some, text_length,
}
use epics_tcl.Prelude.Int.{pos, negsuc}
use epics_tcl.Errors.Base.{Exception}
use epics_tcl.Errors.RangeError.{
  RangeError, too_low, too_high, message, new, assign, set_low, get_reason_text, reason_code,
  update_reason,
}
use epics_tcl.Errors.Reasons.{made, assigned, low_set, reason_text_lem, reason_code_iff, place}

-- A base class that keeps the text of what was being done.
abbrev keeper : Exception
keeper = record { Part = String; new = λ s. s; assign = λ a b. b; equal = λ a b. true }

abbrev too_big : RangeError keeper
too_big = new (pos 0) (pos 100) (pos 101) "I am too high"

abbrev moved : RangeError keeper
moved = (assign false (new (pos 1) (pos 2) (pos 3) "doing") (set_low (negsuc 4) too_big)).0

reason_text_lem_example :
    (get_reason_text moved ≡ message moved.low moved.high moved.requested)
    × (text_length (get_reason_text moved) + 1 ≤ 100)
reason_text_lem_example = reason_text_lem moved (
    assigned false (made (pos 1) (pos 2) (pos 3) "doing" (omega arith) (omega arith) (omega arith))
      (low_set (negsuc 4) (omega arith) (
        made (pos 0) (pos 100) (pos 101) "I am too high" (omega arith) (omega arith)
          (omega arith))))

abbrev plain : RangeError keeper
plain = record {
  base = "doing";
  low = pos 0;
  high = pos 100;
  requested = negsuc 0;
  reason_text = "";
}

reason_code_iff_example :
    ((reason_code plain ≡ some too_low) ↔ (place (negsuc 0) < place (pos 0)))
    × ((reason_code plain ≡ some too_high) ↔ (place (pos 100) < place (negsuc 0)))
    × ((reason_code plain ≡ none)
        ↔ ((place (pos 0) ≤ place (negsuc 0)) × (place (negsuc 0) ≤ place (pos 100))))
reason_code_iff_example =
    reason_code_iff plain (omega arith) (omega arith) (omega arith) (omega arith)

too_big_text : get_reason_text too_big ≡ "Range error: 101 is outside the range [ 0..100]"
unfolding get_reason_text new update_reason message epics_tcl.Prelude.print_int
    epics_tcl.Prelude.print_nat epics_tcl.Prelude.digits epics_tcl.Prelude.digit
too_big_text = refl
