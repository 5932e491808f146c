-- ===== src/Change/Teardown.antt =====
-- The destructor of CTCLChannelCommand in the two halves between which ~CChannel waits in doEvents,
-- and the updates of the channel that channel access delivers during the wait.
use epics_tcl.Prelude.{ℕ, String, none, some, if◌then◌else◌, List, [], ◌∷◌}
use epics_tcl.Ca.{EventArgs, Platform}
use epics_tcl.Channel
use epics_tcl.Map.{erase, string_eq, address_eq}
use epics_tcl.World.{
  World, Run, done, ◌>>=◌, found, at, store, calls_ca, calls_tcl, decrement, is_zero,
}
use epics_tcl.Registry.{have_channel, register, unregister, delete_variables}
use epics_tcl.Change.{channel_event}

-- Up to the wait: the command is still there, its channel without a converter.
unfoldable pub begin_delete : ℕ → World → Run World
begin_delete self w = do
  c ← found (at w self)
  let next = Channel.destroy c.channel
  done (calls_ca next.1 (store self (record c { channel = next.0 }) w))

-- After the wait.
unfoldable pub end_delete : ℕ → World → Run World
unfolding delete_variables
end_delete self w = do
  c ← found (at w self)
  done (
      calls_tcl (delete_variables c.linked_variables)
        (record w { commands = erase self w.commands }))

-- An update: the thread that runs the handler, the time, and the event.
pub record Arrival : Type 0 where
  pub thread : ℕ
  pub now : ℕ
  pub args : EventArgs

unfoldable pub arrivals : Platform → ℕ → List Arrival → World → Run World
unfolding channel_event
arrivals p self [] w = done w
arrivals p self (a ∷ rest) w = do
  w' ← channel_event p a.thread a.now self a.args w
  arrivals p self rest w'

-- The destructor with the updates that arrive during its wait.
unfoldable pub delete_with : Platform → ℕ → List Arrival → World → Run World
unfolding begin_delete arrivals end_delete
delete_with p self late w = do
  w1 ← begin_delete self w
  w2 ← arrivals p self late w1
  end_delete self w2

-- `deleteChannel`, with the updates that arrive while it destroys the command, if it does.
unfoldable pub delete_channel_with : Platform → List Arrival → String → World → Run World
unfolding have_channel delete_with
delete_channel_with p late name w = elim (have_channel name w) [
  | none ↦ done w
  | some info ↦
      let left = decrement info.refcount in
      if is_zero left
      then delete_with p info.command late (unregister name w)
      else done (register name (record info { refcount = left }) w)
]
