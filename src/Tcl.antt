-- ===== src/Tcl.antt =====
-- What the program sees of Tcl and of libtclplus: the conversions of `CTCLObject`, the calls of
-- variables and their traces, and what a command answers. The libraries are not modelled: the
-- conversions are a parameter, and the calls are values.
use epics_tcl.Prelude.{ℕ, String, Bool, Option, List}
use epics_tcl.Prelude.Int.{ℤ}

-- The conversions. `none` is where `CTCLObject` throws: a text that is no integer, no double (given
-- by its bits), no proper list. `of_int` and `merge` are the texts of an integer object and of a
-- list object, and `string_match s pattern` is `Tcl_StringMatch`.
pub record Tcl : Type 0 where
  pub to_int : String → Option ℤ
  pub to_double : String → Option ℕ
  pub list_elements : String → Option (List String)
  pub of_int : ℤ → String
  pub merge : List String → String
  pub string_match : String → String → Bool

-- The calls of `CTCLVariable`, with the address of the object that makes them: to start and stop the
-- object's trace of writes to the variable, and to set the variable.
pub data TclCall : Type 0 where
  trace : ℕ → String → TclCall
  untrace : ℕ → String → TclCall
  set : ℕ → String → String → TclCall

-- How a command ends: TCL_OK, TCL_ERROR, or a C++ exception that leaves it.
pub data Status : Type 0 where
  tcl_ok tcl_error : Status
  uncaught : String → Status

-- The status, and the interpreter's result if the command set it.
pub record Reply : Type 0 where
  pub status : Status
  pub result : Option String
