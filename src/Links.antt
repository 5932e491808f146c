-- ===== src/Links.antt =====
-- `Link`, `Unlink` and `isLinked` of CTCLChannelCommand.cpp. `self` is the address of the command
-- whose member runs, and `c` that command.
pub mod Lists
pub mod Sound
pub mod Kept
pub mod RoundTrip
pub mod Counts
use epics_tcl.Prelude.{
  ℕ, String, Bool, true, false, ◌&&◌, not, Option, none, some, is_some, List, [], ◌∷◌, ◌++◌, ◌==◌,
  is_empty, nat_eq, length, join, if◌then◌else◌,
}
use epics_tcl.Channel
use epics_tcl.Channel.{mark_change}
use epics_tcl.Tcl.{TclCall, tcl_ok, Reply}
use epics_tcl.Variable
use epics_tcl.Map.{Map, lookup, string_eq, address_eq}
use epics_tcl.Command.{Command, VariableInfo, find, usage, word, fail}
use epics_tcl.World.{
  World, RefCountedChannel, Run, done, dangling, ◌>>=◌, found, at, store, calls_tcl,
}

-- The loop of `isLinked` over the known channels.
unfoldable pub is_linked_in : ℕ → String → World → Map String RefCountedChannel → Run Bool
is_linked_in self name w [] = done false
is_linked_in self name w ((key, info) ∷ rest) =
    let later = is_linked_in self name w rest in
    do
      item ← found (at w info.command)
      if is_some (find name item.linked_variables) && not (nat_eq info.command self)
          then done true
          else later

-- Is the variable linked to a channel of another command?
unfoldable pub is_linked : ℕ → String → World → Run Bool
unfolding is_linked_in
is_linked self name w = is_linked_in self name w w.known_channels

-- The entry that `find` points to, changed in place.
unfoldable pub modify :
    String → (Variable.Variable → Variable.Variable) → List VariableInfo → List VariableInfo
modify name f [] = []
modify name f (i ∷ is) =
    let rest = modify name f is in
    if i.varname == name then record i { linked_var = f i.linked_var } ∷ is else i ∷ rest

-- `erase` of the entry that `find` points to.
unfoldable pub remove : String → List VariableInfo → List VariableInfo
remove name [] = []
remove name (i ∷ is) = let rest = remove name is in if i.varname == name then is else i ∷ rest

-- The list after a link, and the new variable's calls of Tcl: the variable is referenced once more
-- if it is in the list, and else made, given the channel's value and added at the end.
unfoldable pub add_link : ℕ → String → Command → List VariableInfo × List TclCall
add_link self name c = elim (find name c.linked_variables) [
  | some i ↦ (modify name Variable.reference c.linked_variables, [])
  | none ↦
      let (v, calls) = Variable.new name self in
      (
        c.linked_variables ++ record { varname = name; linked_var = v } ∷ [],
        calls ++ Variable.new_epics_value (Channel.get_value c.channel) v,
      )
]

abbrev pub silent : Reply
silent = record { status = tcl_ok; result = none }

unfoldable pub linked_world : ℕ → String → Command → World → World
unfolding add_link
linked_world self name c w =
    let (links, calls) = add_link self name c in
    calls_tcl calls (
      store self
        (record c {
          linked_variables = links;
          channel = Channel.set_slot (some mark_change) (some self) c.channel;
        })
        w)

abbrev pub already_linked : String → Reply
already_linked name = fail (join (name ∷ " is already linked to a different channel" ∷ []))

abbrev pub link_usage : Command → Reply
link_usage c = fail (join (c.name ∷ " - insufficient parameters\n" ∷ usage c ∷ []))

unfoldable pub link : ℕ → Command → List String → World → Run (World × Reply)
unfolding is_linked linked_world usage
link self c objv w =
    if nat_eq (length objv) 3
    then (let name = word objv 2 in
        do
          taken ← is_linked self name w
          if taken
              then done (w, already_linked name)
              else done (linked_world self name c w, silent))
    else done (w, link_usage c)

-- The list after the variable was dereferenced, and the calls of Tcl: the entry goes with the last
-- reference, and its variable is deleted.
unfoldable pub drop_link :
    String → VariableInfo → List VariableInfo → List VariableInfo × List TclCall
drop_link name i is =
    if nat_eq (Variable.dereference i.linked_var).reference_count 0
    then (remove name is, Variable.destroy i.linked_var)
    else (modify name Variable.dereference is, [])

-- The slot is taken off when the last entry goes.
unfoldable pub unlinked_world : ℕ → String → VariableInfo → Command → World → World
unfolding drop_link
unlinked_world self name i c w =
    let (links, calls) = drop_link name i c.linked_variables in
    calls_tcl calls (
      store self
        (record c {
          linked_variables = links;
          channel = (if is_empty links then Channel.set_slot none none c.channel else c.channel);
        })
        w)

-- It answers TCL_OK also where the number of words is wrong.
unfoldable pub unlink : ℕ → Command → List String → World → World × Reply
unfolding unlinked_world usage
unlink self c objv w =
    if nat_eq (length objv) 3
    then (let name = word objv 2 in
        elim (find name c.linked_variables) [
          | some i ↦ (unlinked_world self name i c w, silent)
          | none ↦ (
            w,
            fail (
                join
                  ("The variable " ∷ name ∷ " is not linked to " ∷ c.name ∷ "\n" ∷ usage c ∷ [])),
          )
        ])
    else (
      w,
      record {
        status = tcl_ok;
        result =
            some (join ("Invalid number of parameers for channel-name unlink\n" ∷ usage c ∷ []));
      },
    )
