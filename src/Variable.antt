-- ===== src/Variable.antt =====
-- `CChannelVariable` of CChannelVariable.h and CChannelVariable.cpp: a Tcl variable that is linked
-- to a channel. A member returns the object afterwards, or the calls of Tcl that it makes.
use epics_tcl.Prelude.{ℕ, ◌+◌, ◌-◌, ◌%◌, ◌^◌, String, Bool, ◌&&◌, nat_eq, not, List, [], ◌∷◌, ◌++◌}
use epics_tcl.Ca.{CaCall}
use epics_tcl.Tcl.{TclCall, trace, untrace, set}
use epics_tcl.Channel.{Channel}
use epics_tcl.Channel.Put.{assign_string}

-- The variable's name is the base class's. `channel` is the address of the channel, which is that of
-- the command that owns both; `reference_count` is an `unsigned int`.
pub record Variable : Type 0 where
  pub name : String
  pub channel : ℕ
  pub reference_count : ℕ

unfoldable pub enable_tracing : Variable → List TclCall
enable_tracing v = trace v.channel v.name ∷ []

unfoldable pub disable_tracing : Variable → List TclCall
disable_tracing v = untrace v.channel v.name ∷ []

-- The constructor.
unfoldable pub new : String → ℕ → Variable × List TclCall
unfolding enable_tracing
new name channel =
    let v : Variable = record { name = name; channel = channel; reference_count = 1 } in
    (v, enable_tracing v)

-- The copy constructor: `unset` is what the member that it leaves out holds.
unfoldable pub copy : ℕ → Variable → Variable
copy unset rhs = record { name = rhs.name; channel = rhs.channel; reference_count = unset }

-- `operator=`, at two objects.
unfoldable pub assign : Variable → Variable → Variable
assign v rhs = record v { name = rhs.name; channel = rhs.channel }

-- The destructor.
unfoldable pub destroy : Variable → List TclCall
unfolding disable_tracing
destroy v = disable_tracing v

-- `operator==`, given what the base class's answers.
unfoldable pub equal : Bool → Variable → Variable → Bool
equal base v rhs = base && nat_eq v.channel rhs.channel

-- `operator!=`.
unfoldable pub unequal : Bool → Variable → Variable → Bool
unfolding equal
unequal base v rhs = not (equal base v rhs)

unfoldable pub new_epics_value : String → Variable → List TclCall
unfolding enable_tracing disable_tracing
new_epics_value value v = disable_tracing v ++ set v.channel v.name value ∷ enable_tracing v

-- `operator()`, the trace of a write: `contents` is what `Get()` reads, and `c` the channel.
unfoldable pub on_write : String → Channel → List CaCall
unfolding assign_string
on_write contents c = assign_string contents c

unfoldable pub reference : Variable → Variable
reference v = record v { reference_count = (v.reference_count + 1) % 2 ^ 32 }

-- The object afterwards, whose count is the value returned.
unfoldable pub dereference : Variable → Variable
dereference v = record v { reference_count = (v.reference_count + 2 ^ 32 - 1) % 2 ^ 32 }
