-- ===== src/Command.antt =====
-- `CTCLChannelCommand` of CTCLChannelCommand.h and CTCLChannelCommand.cpp: the state of a command
-- object, and the subcommands that touch nothing but it and its channel. The subcommands that
-- involve other commands are in Links and Registry, the dispatch in Dispatch.
pub mod Set
pub mod Replies
pub mod Assignments
use epics_tcl.Prelude.{
  ℕ, ◌%◌, ◌^◌, String, Bool, true, false, Option, none, some, List, [], ◌∷◌, ◌==◌, nat_eq, ltb,
  length, get_or, join, if◌then◌else◌,
}
use epics_tcl.Prelude.Int.{ℤ, signed, to_size_t}
use epics_tcl.Prelude.Order.{set_insert}
use epics_tcl.Channel
use epics_tcl.Channel.{Channel, ok, throw}
use epics_tcl.Tcl.{Tcl, Status, tcl_ok, tcl_error, uncaught, Reply}
use epics_tcl.Variable.{Variable}

pub record VariableInfo : Type 0 where
  pub varname : String
  pub linked_var : Variable

-- The command owns its channel, which is a part of it here, as are the variables of the list.
pub record Command : Type 0 where
  pub name : String
  pub channel : Channel
  pub linked_variables : List VariableInfo
  pub interpreter_thread : ℕ

unfoldable pub usage : Command → String
usage c = join (
    "Usage: \n" ∷ c.name ∷ "  get ?count?\n" ∷ c.name ∷ " set value_list ?string|int|real?\n"
    ∷ c.name ∷ " link tclVariableName\n" ∷ c.name ∷ " unlink tclVariableName\n" ∷ c.name
    ∷ " listlinks ?pattern?\n" ∷ c.name ∷ " updatetime\n" ∷ c.name ∷ " delete\n" ∷ c.name
    ∷ " values\n" ∷ c.name ∷ " size\n" ∷ [])

-- `objv[i]`; the subcommands read within the length that they have tested.
abbrev pub word : List String → ℕ → String
word objv i = get_or objv i ""

abbrev pub reply : String → Reply
reply s = record { status = tcl_ok; result = some s }

abbrev pub fail : String → Reply
fail s = record { status = tcl_error; result = some s }

-- The count of `get ?count?`: 0 if it is left out, `none` if it is no integer.
unfoldable pub get_count : Tcl → List String → Option ℕ
get_count t objv =
    if nat_eq (length objv) 3
    then elim (t.to_int (word objv 2)) [ none ↦ none | some i ↦ some (to_size_t i) ]
    else some 0

unfoldable pub get : Tcl → Command → List String → Reply
unfolding get_count usage
get t c objv =
    if ltb 3 (length objv)
    then fail (join ("Too many command line parameters\n" ∷ usage c ∷ []))
    else elim (get_count t objv) [
      | none ↦ record { status = tcl_error; result = none }
      | some max ↦
          if Channel.is_connected c.channel
          then elim (Channel.get_vector max c.channel) [
            | ok strings ↦ reply (t.merge strings)
            | throw what ↦ record { status = uncaught what; result = none }
          ]
          else fail (join (Channel.get_name c.channel ∷ " is not connected at this time" ∷ []))
    ]

-- `(int)Time`.
unfoldable pub updatetime : Tcl → Command → Reply
updatetime t c = reply (t.of_int (signed 32 (Channel.get_last_update c.channel % 2 ^ 32)))

-- The loop of `listlinks` over the variables, into a `set<string>`.
unfoldable pub matching : Tcl → String → List VariableInfo → List String → List String
matching t pattern [] sorted = sorted
matching t pattern (i ∷ is) sorted =
    matching t pattern is
      (if t.string_match i.varname pattern then set_insert i.varname sorted else sorted)

unfoldable pub list_links : Tcl → Command → List String → Reply
unfolding matching usage
list_links t c objv =
    if ltb 3 (length objv)
    then fail (join ("Too many parametesr to linklist subcommand\n" ∷ usage c ∷ []))
    else (let pattern = (if nat_eq (length objv) 3 then word objv 2 else "*") in
        reply (t.merge (matching t pattern c.linked_variables [])))

unfoldable pub value_list : Tcl → Command → List String → Reply
unfolding usage
value_list t c objv =
    if nat_eq (length objv) 2
    then reply (t.merge (Channel.get_allowed_values c.channel))
    else fail (join ("Too many command line parameters\n" ∷ usage c ∷ []))

-- `(int)m_pChannel->size()`; `element_count` is what `ca_element_count` answers.
unfoldable pub size : Tcl → ℕ → Command → List String → Reply
unfolding usage
size t element_count c objv =
    if nat_eq (length objv) 2
    then (if Channel.is_connected c.channel
        then elim (Channel.size element_count c.channel) [
          | ok n ↦ reply (t.of_int (signed 32 (n % 2 ^ 32)))
          | throw what ↦ record { status = uncaught what; result = none }
        ]
        else fail "Channel not connected")
    else fail (join ("Invalid parameter count\n" ∷ usage c ∷ []))

-- `find`: the entry of the list whose name is the variable's, `none` for the list's end.
unfoldable pub find : String → List VariableInfo → Option VariableInfo
find name [] = none
find name (i ∷ is) = if i.varname == name then some i else find name is
