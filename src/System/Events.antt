-- ===== src/System/Events.antt =====
-- The callbacks of channel access, the Tcl event loop and the traces keep the world sound; and when
-- they end.
use epics_tcl.Prelude.{
  ℕ, ◌≡◌, refl, ◌∙◌, ◌⊎◌, String, Option, none, some, List, [], ◌∷◌, ◌++◌, nat_eq, nat_eq_iff,
  Bool-cases, Option-cases, inl, inr, arith,
}
use epics_tcl.Ca.{ConnectionArgs, EventArgs, Platform}
use epics_tcl.Channel
use epics_tcl.Channel.{Channel, Slot, mark_change, state_handler, update_handler}
use epics_tcl.Variable
use epics_tcl.Map.{lookup, insert, address_eq, string_eq, lookup-insert}
use epics_tcl.Command.{Command}
use epics_tcl.World.{World, ChangeEvent, store, calls_ca, calls_tcl}
use epics_tcl.Registry.{have_channel}
use epics_tcl.Registry.Sound.{Registered-store}
use epics_tcl.Links.Sound.{IsWell, Linked-store}
use epics_tcl.Change.{
  update_all, update_linked_variable, update, mark, fire, channel_event, connection_event, dispatch,
}
use epics_tcl.Dispatch.{variable_write}
use epics_tcl.System.{IsSound}
use epics_tcl.System.Operations.{Ends}

-- A callback changes the channel of a command, and not the channel's slot.
module _ (self : ℕ) (c : Command) (ch : Channel) (w : World) where
  pub store_channel-IsSound :
      lookup self w.commands ≡ some c
      → ch.handler ≡ c.channel.handler
      → ch.handler_data ≡ c.channel.handler_data
      → IsSound w
      → IsSound (store self (record c { channel = ch }) w)
  store_channel-IsSound here hooks datum s =
      let well = s.linked.well self c here in
      record {
        registered = Registered-store self c _ w.commands refl here s.registered;
        linked =
            Linked-store self _ w.commands
              (record {
                entries = well.entries;
                distinct = well.distinct;
                slot = hooks ∙ well.slot;
                slot_data = datum ∙ well.slot_data;
              })
              (λ v b d lv live ld. s.linked.exclusive self b c d v here live lv ld) s.linked;
      }

handler-state_handler :
    (args : ConnectionArgs) (c : Channel)
    → ((state_handler args c).0.handler ≡ c.handler)
      × ((state_handler args c).0.handler_data ≡ c.handler_data)
unfolding state_handler
handler-state_handler args c = ground arith

handler-update_handler :
    (p : Platform) (now : ℕ) (args : EventArgs) (c : Channel)
    → ((update_handler p now args c).0.handler ≡ c.handler)
      × ((update_handler p now args c).0.handler_data ≡ c.handler_data)
unfolding update_handler
handler-update_handler p now args c = ground arith

-- A slot that is fired is the channel's, with its data.
fired-update_handler :
    (p : Platform) (now : ℕ) (args : EventArgs) (c : Channel) (h : Slot) (d : Option ℕ)
    → (update_handler p now args c).1 ≡ some (h, d)
    → (c.handler ≡ some h) × (c.handler_data ≡ d)
unfolding update_handler
fired-update_handler p now args c h d e = ground arith

pub connection_event-Ends :
    (self : ℕ) (args : ConnectionArgs) (c : Command) (w : World)
    → lookup self w.commands ≡ some c
    → IsSound w
    → Ends IsSound (connection_event self args w)
unfolding connection_event
connection_event-Ends self args c w here s =
    let (hooks, datum) = handler-state_handler args c.channel in
    let s' = store_channel-IsSound self c (state_handler args c.channel).0 w here hooks datum s in
    (
      calls_ca (state_handler args c.channel).1
          (store self (record c { channel = (state_handler args c.channel).0 }) w),
      rw here,
      record { registered = s'.registered; linked = s'.linked },
    )

pub variable_write-Ends :
    (self : ℕ) (contents : String) (c : Command) (w : World)
    → lookup self w.commands ≡ some c
    → IsSound w
    → Ends IsSound (variable_write self contents w)
unfolding variable_write
variable_write-Ends self contents c w here s = (
  calls_ca (Variable.on_write contents c.channel) w,
  rw here,
  record { registered = s.registered; linked = s.linked },
)

pub update_linked_variable-Ends :
    (self : ℕ) (c : Command) (w : World)
    → lookup self w.commands ≡ some c
    → IsSound w
    → Ends IsSound (update_linked_variable self w)
unfolding update_linked_variable
update_linked_variable-Ends self c w here s = (
  calls_tcl (update_all (Channel.get_value c.channel) c.linked_variables) w,
  rw here,
  record { registered = s.registered; linked = s.linked },
)

-- The processing of an event ends if the command of the event lives, or its name is not known.
pub update-Ends :
    (e : ChangeEvent) (w : World)
    → (have_channel e.channel_name w ≡ none)
      ⊎ ((c : Command) × (lookup e.changed_channel w.commands ≡ some c))
    → IsSound w
    → Ends IsSound (update e w)
unfolding update
update-Ends e w (inl gone) s = (w, rw (gone, update), s)
update-Ends e w (inr (c, live)) s = elim (Option-cases (have_channel e.channel_name w)) [
  | inl gone ↦ (w, rw (gone, update), s)
  | inr (info, here) ↦
      let (w', ended, s') = update_linked_variable-Ends e.changed_channel c w live s in
      (w', rw (here, update) ended, s')
]

pub mark-Ends :
    (thread self : ℕ) (c : Command) (w : World)
    → lookup self w.commands ≡ some c
    → IsSound w
    → Ends IsSound (mark thread self w)
unfolding mark
mark-Ends thread self c w here s =
    let e : ChangeEvent = record { changed_channel = self; channel_name = c.name } in
    elim (Bool-cases (nat_eq thread c.interpreter_thread)) [
      | inl same ↦
          let (w', ended, s') = update-Ends e w (inr (c, here)) s in
          (w', rw here (rw same ended), s')
      | inr different ↦ (
        record w { queue = w.queue ++ e ∷ [] },
        rw here (rw different),
        record { registered = s.registered; linked = s.linked },
      )
    ]

-- What a command's channel fires is the command's own mark, if anything.
fired-own :
    (p : Platform) (now self : ℕ) (args : EventArgs) (c : Command)
    → IsWell self c
    → ((update_handler p now args c.channel).1 ≡ none)
      ⊎ ((update_handler p now args c.channel).1 ≡ some (mark_change, some self))
fired-own p now self args c well = elim (Option-cases (update_handler p now args c.channel).1) [
  | inl quiet ↦ inl quiet
  | inr ((mark_change, d), fired) ↦
      let (hooks, datum) = fired-update_handler p now args c.channel mark_change d fired in
      inr (ground (arith, well.slot, well.slot_data))
]

fire-Ends :
    (thread self : ℕ) (x : Option (Slot × Option ℕ)) (c : Command) (w : World)
    → (x ≡ none) ⊎ (x ≡ some (mark_change, some self))
    → lookup self w.commands ≡ some c
    → IsSound w
    → Ends IsSound (fire thread x w)
unfolding fire
fire-Ends thread self x c w (inl quiet) here s = (w, rw (quiet, fire), s)
fire-Ends thread self x c w (inr fired) here s =
    let (w', ended, s') = mark-Ends thread self c w here s in (w', rw (fired, fire) ended, s')

-- An update event at a live command's channel ends: the slot's data is that command's address.
pub channel_event-Ends :
    (p : Platform) (thread now self : ℕ) (args : EventArgs) (c : Command) (w : World)
    → lookup self w.commands ≡ some c
    → IsSound w
    → Ends IsSound (channel_event p thread now self args w)
unfolding channel_event
channel_event-Ends p thread now self args c w here s =
    let next = update_handler p now args c.channel in
    let c' : Command = record c { channel = next.0 } in
    let (hooks, datum) = handler-update_handler p now args c.channel in
    let s' = store_channel-IsSound self c next.0 w here hooks datum s in
    let here' : lookup self (insert self c' w.commands) ≡ some c' =
      rw (lookup-insert self self c' w.commands, (nat_eq_iff self self).1 refl) in
    let (w'', ended, s'') =
      fire-Ends thread self next.1 c' (store self c' w)
        (fired-own p now self args c (s.linked.well self c here)) here' s' in
    (w'', rw here ended, s'')

-- The event loop ends if the command of the next event lives, or its name is not known.
pub dispatch-Ends :
    (es : List ChangeEvent) (w : World)
    → ((e : ChangeEvent) (rest : List ChangeEvent)
        → es ≡ e ∷ rest
        → (have_channel e.channel_name w ≡ none)
          ⊎ ((c : Command) × (lookup e.changed_channel w.commands ≡ some c)))
    → IsSound w
    → Ends IsSound (dispatch es w)
unfolding dispatch have_channel
dispatch-Ends [] w k s = (w, refl, s)
dispatch-Ends (e ∷ es) w k s =
    update-Ends e (record w { queue = es }) (k e es refl)
      (record { registered = s.registered; linked = s.linked })
