-- ===== src/Tests.antt =====
-- Inputs for the tests and the examples: two platforms, a Tcl of a few words, channels and worlds.
pub mod Channels
pub mod Commands
pub mod Worlds
pub mod Items
pub mod Sockets
pub mod Errors
pub mod Monitors
pub mod Packages
use epics_tcl.Prelude.{
  ℕ, ◌≡◌, refl, String, true, false, none, some, List, [], ◌∷◌, ◌==◌, ◌||◌, join, print_nat,
  print_int, if◌then◌else◌,
}
use epics_tcl.Prelude.Int.{pos}
use epics_tcl.Ca.{FieldType, GrEnum, Memory, EventArgs, ConnectionArgs, ConnOp, Platform}
use epics_tcl.Channel
use epics_tcl.Channel.{Channel}
use epics_tcl.Converter
use epics_tcl.Tcl.{Tcl}
use epics_tcl.Command.{Command}
use epics_tcl.Registry.{Fresh}

abbrev pub wide : Platform
wide = record { long_is_64 = true; print_double = λ b. print_nat b; string_size = 40 }

abbrev pub narrow : Platform
narrow = record wide { long_is_64 = false }

-- It knows the integer 7, and each text is a list of one element.
abbrev pub tcl : Tcl
tcl = record {
  to_int = λ s. if s == "7" then some (pos 7) else none;
  to_double = λ s. if s == "7" then some 7 else none;
  list_elements = λ s. some (s ∷ []);
  of_int = λ i. print_int i;
  merge = λ ss. join ss;
  string_match = λ s p. p == "*" || s == p;
}

abbrev pub on_off : GrEnum
on_off = record { no_str = pos 2; strs = λ i. "label"; value = 1 }

abbrev pub memory : Memory
memory = record { strings = λ i. "text"; words = λ i. 5; doubles = λ i. 3; enums = λ i. on_off }

abbrev pub event : EventArgs
event = record { normal = true; count = 2; dbr = memory }

abbrev pub going_up : ConnectionArgs
going_up = record { op = ConnOp.up; chid = 10; field_type = FieldType.long; event_id = 77 }

abbrev pub offline : Channel
offline = record {
  name = "ch";
  connected = false;
  chid = 10;
  update_handler_established = false;
  connection_handler_established = true;
  value = "";
  vector_value = [];
  last_update_time = 0;
  converter = none;
  handler = none;
  handler_data = none;
  update_event_id = none;
}

abbrev pub online : Channel
online = record offline {
  connected = true;
  update_handler_established = true;
  vector_value = "a" ∷ "b" ∷ [];
  converter = some Converter.integer;
  update_event_id = some 77;
}

abbrev pub command_of : Channel → Command
command_of c = record { name = "ch"; channel = c; linked_variables = []; interpreter_thread = 0 }

abbrev pub fresh : Fresh
fresh = record { address = 1; chid = 10; thread = 0 }

abbrev pub fresh_again : Fresh
fresh_again = record { address = 2; chid = 11; thread = 0 }
