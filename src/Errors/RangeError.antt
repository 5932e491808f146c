-- ===== src/Errors/RangeError.antt =====
-- `CRangeError`.
use epics_tcl.Prelude.{
  String, Bool, ◌&&◌, Option, none, some, [], ◌∷◌, join, print_int, if◌then◌else◌,
}
use epics_tcl.Prelude.Int.{ℤ}
use epics_tcl.Errors.Base.{Exception, int_less, int_eq}

pub data Reason : Type 0 where
  too_low too_high : Reason

pub record RangeError (X : Exception) : Type 0 where
  pub base : X.Part
  pub low : ℤ
  pub high : ℤ
  pub requested : ℤ
  pub reason_text : String

-- The text that `sprintf` writes into a buffer of 100 bytes.
unfoldable pub message : ℤ → ℤ → ℤ → String
message low high requested = join (
    "Range error: "
    ∷ print_int requested
    ∷ " is outside the range [ "
    ∷ print_int low
    ∷ ".."
    ∷ print_int high
    ∷ "]"
    ∷ [])

module _ {X : Exception} where
  unfoldable pub update_reason : RangeError X → RangeError X
  update_reason e = record e { reason_text = message e.low e.high e.requested }

  unfoldable pub new : ℤ → ℤ → ℤ → String → RangeError X
  unfolding update_reason
  new low high requested doing = update_reason (record {
    base = X.new doing;
    low = low;
    high = high;
    requested = requested;
    reason_text = "";
  })

  unfoldable pub copy : RangeError X → RangeError X
  unfolding update_reason
  copy e = update_reason (record {
    base = e.base;
    low = e.low;
    high = e.high;
    requested = e.requested;
    reason_text = "";
  })

  -- The assignment, where `same` tells whether both are one object: the object, and the result, a copy.
  unfoldable pub assign : Bool → RangeError X → RangeError X → RangeError X × RangeError X
  unfolding update_reason copy
  assign same e other =
      let assigned =
        (if same
          then e
          else update_reason (record e {
            base = X.assign e.base other.base;
            low = other.low;
            high = other.high;
            requested = other.requested;
          })) in
      (assigned, copy assigned)

  unfoldable pub equal : RangeError X → RangeError X → Bool
  equal e f =
      X.equal e.base f.base
      && int_eq e.low f.low
      && int_eq e.high f.high
      && int_eq e.requested f.requested

  unfoldable pub set_low : ℤ → RangeError X → RangeError X
  unfolding update_reason
  set_low n e = update_reason (record e { low = n })

  unfoldable pub set_high : ℤ → RangeError X → RangeError X
  unfolding update_reason
  set_high n e = update_reason (record e { high = n })

  unfoldable pub set_requested : ℤ → RangeError X → RangeError X
  unfolding update_reason
  set_requested n e = update_reason (record e { requested = n })

  unfoldable pub get_reason_text : RangeError X → String
  get_reason_text e = e.reason_text

  -- `none` where the assertion fails.
  unfoldable pub reason_code : RangeError X → Option Reason
  reason_code e =
      if int_less e.high e.requested
      then some too_high
      else if int_less e.requested e.low
      then some too_low
      else none
