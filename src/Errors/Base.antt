-- ===== src/Errors/Base.antt =====
-- What the exception classes use of their base class `CException`, and of `int`.
use epics_tcl.Prelude.{String, Bool, true, false, ltb, nat_eq}
use epics_tcl.Prelude.Int.{ℤ, pos, negsuc}

-- The base part of an exception, with its constructor from a text, its assignment, `this` first, and
-- its comparison.
pub record Exception : Type 1 where
  pub Part : Type 0
  pub new : String → Part
  pub assign : Part → Part → Part
  pub equal : Part → Part → Bool

abbrev pub int_less : ℤ → ℤ → Bool
int_less (pos a) (pos b) = ltb a b
int_less (pos a) (negsuc b) = false
int_less (negsuc a) (pos b) = true
int_less (negsuc a) (negsuc b) = ltb b a

abbrev pub int_eq : ℤ → ℤ → Bool
int_eq (pos a) (pos b) = nat_eq a b
int_eq (negsuc a) (negsuc b) = nat_eq a b
int_eq _ _ = false
