-- ===== src/Registry.antt =====
-- `CTCLEpicsCommand` of CTCLEpicsCommand.h and CTCLEpicsCommand.cpp: the `epicschannel` command and
-- the reference counted channels; with the constructor and the destructor of `CTCLChannelCommand`,
-- which it calls.
pub mod Sound
use epics_tcl.Prelude.{
  ℕ, String, Bool, Option, none, some, List, [], ◌∷◌, ◌++◌, nat_eq, not, length, get_or, join,
  if◌then◌else◌,
}
use epics_tcl.Prelude.Int.{pos}
use epics_tcl.Channel
use epics_tcl.Tcl.{TclCall, tcl_ok, Reply}
use epics_tcl.Variable
use epics_tcl.Map.{lookup, insert, erase, string_eq, address_eq}
use epics_tcl.Command.{Command, VariableInfo, word}
use epics_tcl.World.{
  World, RefCountedChannel, Run, done, dangling, ◌>>=◌, found, at, store, calls_ca, calls_tcl,
  increment, decrement, is_zero,
}

-- What the environment answers while a command object is made: the address that `new` returns, the
-- channel id that `ca_create_channel` writes, and the thread that runs.
pub record Fresh : Type 0 where
  pub address : ℕ
  pub chid : ℕ
  pub thread : ℕ

abbrev pub created : Fresh → String → Command
created f name = record {
  name = name;
  channel = (Channel.connect f.chid (Channel.new name)).0;
  linked_variables = [];
  interpreter_thread = f.thread;
}

-- The constructor of `CTCLChannelCommand`, which makes the channel and connects it.
unfoldable pub new_command : Fresh → String → World → World
new_command f name w =
    calls_ca (Channel.connect f.chid (Channel.new name)).1 (store f.address (created f name) w)

-- `while (!empty()) { delete front; pop_front(); }`.
unfoldable pub delete_variables : List VariableInfo → List TclCall
delete_variables [] = []
delete_variables (i ∷ is) = Variable.destroy i.linked_var ++ delete_variables is

-- The destructor of `CTCLChannelCommand`, and the release of its address.
unfoldable pub delete_command : ℕ → World → Run World
unfolding delete_variables
delete_command self w = do
  c ← found (at w self)
  done (
      calls_tcl (delete_variables c.linked_variables)
        (calls_ca (Channel.destroy c.channel).1 (record w { commands = erase self w.commands })))

unfoldable pub have_channel : String → World → Option RefCountedChannel
have_channel name w = lookup name w.known_channels

-- `m_channelInfo[name] = info`, also for a change of the entry in its place.
abbrev pub register : String → RefCountedChannel → World → World
register name info w = record w { known_channels = insert name info w.known_channels }

abbrev pub unregister : String → World → World
unregister name w = record w { known_channels = erase name w.known_channels }

-- `deleteChannel`. The source reads the command's address out of the map entry after it erased the
-- entry, which C++ leaves undefined; the model takes the address that the entry held.
unfoldable pub delete_channel : String → World → Run World
unfolding have_channel delete_command
delete_channel name w = elim (have_channel name w) [
  | none ↦ done w
  | some info ↦
      let left = decrement info.refcount in
      if is_zero left
      then delete_command info.command (unregister name w)
      else done (register name (record info { refcount = left }) w)
]

-- What `epicschannel name` does when the channel is not known: a command object, and an entry with
-- the count 0.
unfoldable pub make_channel : Fresh → String → World → World
unfolding new_command
make_channel f name w =
    register name (record { refcount = pos 0; command = f.address }) (new_command f name w)

-- The count of an entry goes up; the source dereferences what `haveChannel` found.
unfoldable pub add_reference : String → World → Run World
unfolding have_channel
add_reference name w = do
  info ← found (have_channel name w)
  done (register name (record info { refcount = increment info.refcount }) w)

unfoldable pub epics_usage : String → String
epics_usage command = join (
    command ∷ " -- incorrect number of parameters\n" ∷ "Usage:\n" ∷ "   epicschannel name\n"
    ∷ "      name - the name of an epics channel or data record field\n" ∷ [])

-- `operator()` of `CTCLEpicsCommand`, whose own name is `command`. It answers TCL_OK also where the
-- number of words is wrong.
unfoldable pub epicschannel : Fresh → String → List String → World → Run (World × Reply)
unfolding have_channel make_channel add_reference epics_usage
epicschannel f command objv w =
    if nat_eq (length objv) 2
    then (let name = word objv 1 in
        let ready : World = (elim (have_channel name w) [
          | none ↦ make_channel f name w
          | some info ↦ w
        ]) in
        do w' ← add_reference name ready; done (w', record { status = tcl_ok; result = none }))
    else done (w, record { status = tcl_ok; result = some (epics_usage command) })
