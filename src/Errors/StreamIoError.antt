-- ===== src/Errors/StreamIoError.antt =====
-- `CStreamIOError`. Its stream is an address.
use epics_tcl.Prelude.{ℕ, zero, suc, String, Bool, ◌&&◌, nat_eq}
use epics_tcl.Prelude.Int.{ℤ, pos, negsuc}
use epics_tcl.Errors.Base.{Exception, int_eq}

-- A reason may be out of the enumerator's range, by a cast.
pub record StreamIoError (X : Exception) : Type 0 where
  pub base : X.Part
  pub reason : ℤ
  pub stream : ℕ

module _ {X : Exception} where
  unfoldable pub new : ℤ → String → ℕ → StreamIoError X
  new reason doing stream = record { base = X.new doing; reason = reason; stream = stream }

  -- The copy refers to the same stream.
  unfoldable pub copy : StreamIoError X → StreamIoError X
  copy e = record { base = e.base; reason = e.reason; stream = e.stream }

  unfoldable pub set_reason : ℤ → StreamIoError X → StreamIoError X
  set_reason reason e = record e { reason = reason }

  unfoldable pub equal : StreamIoError X → StreamIoError X → Bool
  equal e f = X.equal e.base f.base && int_eq e.reason f.reason && nat_eq e.stream f.stream

  unfoldable pub get_error_message : StreamIoError X → String
  get_error_message e = elim e.reason [
    | pos zero ↦ "End of file encountered (prematurely) "
    | pos (suc zero) ↦ "Bad bit set in ios:: "
    | pos (suc (suc zero)) ↦ "Fail bit set in ios:: "
    | pos (suc (suc (suc n))) ↦ "Invalid error enumerator!!!"
    | negsuc n ↦ "Invalid error enumerator!!!"
  ]

  unfoldable pub reason_text : StreamIoError X → String
  unfolding get_error_message
  reason_text e = get_error_message e

  unfoldable pub reason_code : StreamIoError X → ℤ
  reason_code e = e.reason
