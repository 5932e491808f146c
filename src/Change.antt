-- ===== src/Change.antt =====
-- How a change of a channel reaches the linked variables: `markChange`, `update` and
-- `UpdateLinkedVariable` of CTCLChannelCommand.cpp, the slot's call from `CChannel::Update`, and the
-- two callbacks of channel access at a command's channel.
pub mod Delivery
pub mod Frame
pub mod Teardown
use epics_tcl.Prelude.{ℕ, String, Option, none, some, List, [], ◌∷◌, ◌++◌, nat_eq, if◌then◌else◌}
use epics_tcl.Ca.{ConnectionArgs, EventArgs, Platform}
use epics_tcl.Channel
use epics_tcl.Channel.{Slot, mark_change}
use epics_tcl.Tcl.{TclCall}
use epics_tcl.Variable
use epics_tcl.Map.{lookup, address_eq}
use epics_tcl.Command.{Command, VariableInfo}
use epics_tcl.World.{
  World, ChangeEvent, Run, done, dangling, ◌>>=◌, found, at, store, calls_ca, calls_tcl,
}
use epics_tcl.Registry.{have_channel}

-- The loop of `UpdateLinkedVariable`.
unfoldable pub update_all : String → List VariableInfo → List TclCall
update_all value [] = []
update_all value (i ∷ is) = Variable.new_epics_value value i.linked_var ++ update_all value is

unfoldable pub update_linked_variable : ℕ → World → Run World
unfolding update_all
update_linked_variable self w = do
  c ← found (at w self)
  done (calls_tcl (update_all (Channel.get_value c.channel) c.linked_variables) w)

-- `update`, of an event that was taken from the queue or just made.
unfoldable pub update : ChangeEvent → World → Run World
unfolding have_channel update_linked_variable
update e w = elim (have_channel e.channel_name w) [
  | none ↦ done w
  | some info ↦ update_linked_variable e.changed_channel w
]

-- `markChange`, run by the thread `thread` with the command's address for data.
unfoldable pub mark : ℕ → ℕ → World → Run World
unfolding update
mark thread self w = do
  c ← found (at w self)
  let e : ChangeEvent = record { changed_channel = self; channel_name = c.name }
  if nat_eq thread c.interpreter_thread
      then update e w
      else done (record w { queue = w.queue ++ e ∷ [] })

-- The call of a slot that `CChannel::Update` fired, if one was.
unfoldable pub fire : ℕ → Option (Slot × Option ℕ) → World → Run World
unfolding mark
fire thread none w = done w
fire thread (some (mark_change, none)) w = dangling
fire thread (some (mark_change, some self)) w = mark thread self w

-- `UpdateHandler` at the channel of the command at `self`.
unfoldable pub channel_event : Platform → ℕ → ℕ → ℕ → EventArgs → World → Run World
unfolding fire
channel_event p thread now self args w = do
  c ← found (at w self)
  let next = Channel.update_handler p now args c.channel
  fire thread next.1 (store self (record c { channel = next.0 }) w)

-- `StateHandler` at the channel of the command at `self`.
unfoldable pub connection_event : ℕ → ConnectionArgs → World → Run World
connection_event self args w = do
  c ← found (at w self)
  let next = Channel.state_handler args c.channel
  done (calls_ca next.1 (store self (record c { channel = next.0 }) w))

-- The Tcl event loop takes the event at the head of the queue.
unfoldable pub dispatch : List ChangeEvent → World → Run World
unfolding update
dispatch [] w = done w
dispatch (e ∷ es) w = update e (record w { queue = es })
