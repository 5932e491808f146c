-- ===== src/Change/Delivery.antt =====
-- A change of a channel reaches the variables that are linked to it.
use epics_tcl.Prelude.{ℕ, ◌≡◌, ◌≢◌, some, [], ◌∷◌, ◌++◌, nat_eq, nat_eq_iff, Bool-cases, inl, inr}
use epics_tcl.Channel
use epics_tcl.Channel.{Channel, mark_change}
use epics_tcl.Map.{address_eq, string_eq}
use epics_tcl.Command.{Command}
use epics_tcl.World.{World, ChangeEvent, RefCountedChannel, done, at, calls_tcl}
use epics_tcl.Registry.{have_channel}
use epics_tcl.Change.{update_all, update_linked_variable, update, mark}

module _ (self : ℕ) (c : Command) (info : RefCountedChannel) where
  abbrev pub event_of : ChangeEvent
  event_of = record { changed_channel = self; channel_name = c.name }

  -- The world after the command's variables are set to the channel's value.
  abbrev pub shown : World → World
  shown w = calls_tcl (update_all (Channel.get_value c.channel) c.linked_variables) w

  pub update-shown :
      (w : World)
      → at w self ≡ some c
      → have_channel c.name w ≡ some info
      → update event_of w ≡ done (shown w)
  unfolding update update_linked_variable
  update-shown w here known = rw (known, update) (rw here)

  pub mark-here :
      (w : World) (thread : ℕ)
      → at w self ≡ some c
      → have_channel c.name w ≡ some info
      → thread ≡ c.interpreter_thread
      → mark thread self w ≡ done (shown w)
  unfolding mark
  mark-here w thread here known same =
      rw here (rw ((nat_eq_iff thread c.interpreter_thread).1 same) (update-shown w here known))

  pub mark-elsewhere :
      (w : World) (thread : ℕ)
      → at w self ≡ some c
      → thread ≢ c.interpreter_thread
      → mark thread self w ≡ done (record w { queue = w.queue ++ event_of ∷ [] })
  unfolding mark
  mark-elsewhere w thread here other =
      rw here (elim (Bool-cases (nat_eq thread c.interpreter_thread)) [
        | inl e ↦ absurd (other ((nat_eq_iff thread c.interpreter_thread).0 e))
        | inr e ↦ rw e
      ])
