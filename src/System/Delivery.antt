-- ===== src/System/Delivery.antt =====
-- A new value of a channel reaches the linked variables, on either thread.
use mathlib.Core.List.{append-nil}
use epics_tcl.Prelude.{
  subst, inl, inr, List, All, All-append, nat_eq, Bool-cases, ℕ, ◌≡◌, ◌≢◌, refl, ap, ◌∙◌, true,
  false, none, some, [], ◌∷◌, ◌++◌, is_empty, nat_eq_iff, arith, if◌then◌else◌,
}
use epics_tcl.Ca.{EventArgs, Platform}
use epics_tcl.Converter
use epics_tcl.Converter.{Converter}
use epics_tcl.Channel
use epics_tcl.Channel.{Channel, mark_change, update_handler}
use epics_tcl.Channel.Reads.{update_handler_normal}
use epics_tcl.Map.{string_eq, address_eq, lookup-insert}
use epics_tcl.Command.{Command}
use epics_tcl.World.{RefCountedChannel, ChangeEvent, World, done, at, store}
use epics_tcl.Registry.{have_channel}
use epics_tcl.Change.{mark, fire, channel_event}
use epics_tcl.Change.Delivery.{shown, event_of, mark-here, mark-elsewhere}
use epics_tcl.Links.Lists.{IsEntry}
use epics_tcl.System.{IsSound}
use epics_tcl.System.Steps.{IsServable}
use epics_tcl.System.Drain.{
  drain, event_calls, queue_calls, queue_calls-append, drain-calls, sets, update_all-sets, AreOwn,
}

update_handler-value :
    (p : Platform) (now : ℕ) (args : EventArgs) (c : Channel) (k : Converter)
    → args.normal ≡ true
    → c.converter ≡ some k
    → Channel.get_value (update_handler p now args c).0 ≡ (Converter.call p k args).1
unfolding update_handler Channel.get_value
update_handler-value p now args c k n h = ground arith

module _ (p : Platform) (thread now self : ℕ) (args : EventArgs) (c : Command) (k : Converter)
    (w : World) where
  -- The command with its channel's new value, and the world that has it.
  abbrev pub changed : Command
  changed = record c { channel = (update_handler p now args c.channel).0 }

  abbrev pub changed_world : World
  changed_world = store self changed w

  changed-here : at changed_world self ≡ some changed
  changed-here = rw (lookup-insert self self changed w.commands, (nat_eq_iff self self).1 refl)

  channel_event-fires :
      at w self ≡ some c
      → args.normal ≡ true
      → c.channel.converter ≡ some k
      → c.channel.handler ≡ some mark_change
      → c.channel.handler_data ≡ some self
      → channel_event p thread now self args w ≡ mark thread self changed_world
  unfolding channel_event fire
  channel_event-fires here n conv slot slot_data =
      let (_, _, _, _, fires, _) = update_handler_normal p now args c.channel k n conv in
      let fired : (update_handler p now args c.channel).1 ≡ some (mark_change, some self) =
        fires mark_change slot ∙ ap (λ d. some (mark_change, d)) slot_data in
      rw here (rw (fired, fire))

  IsServable-changed :
      at w self ≡ some c → (e : ChangeEvent) → IsServable w e → IsServable changed_world e
  unfolding have_channel
  IsServable-changed here e (inl gone) = inl gone
  IsServable-changed here e (inr (d, live)) = elim (Bool-cases (nat_eq self e.changed_channel)) [
    | inl hit ↦ inr (changed, rw (lookup-insert self e.changed_channel changed w.commands, hit))
    | inr miss ↦ inr (d, rw (lookup-insert self e.changed_channel changed w.commands, miss) live)
  ]

  AreServable-changed :
      at w self ≡ some c
      → (es : List ChangeEvent) → All (IsServable w) es
      → All (IsServable changed_world) es
  AreServable-changed here [] h = tt
  AreServable-changed here (e ∷ es) h =
      (IsServable-changed here e h.0, AreServable-changed here es h.1)

  AreOwn-changed : at w self ≡ some c → AreOwn w.commands → AreOwn changed_world.commands
  AreOwn-changed here own s d e = elim (Bool-cases (nat_eq self s)) [
    | inl hit ↦
        let same : changed ≡ d = ground (arith, lookup-insert self s changed w.commands) in
        subst (λ (x : Command). All (IsEntry s) x.linked_variables) same
          (subst (λ a. All (IsEntry a) c.linked_variables) ((nat_eq_iff self s).0 hit)
            (own self c here))
    | inr miss ↦ own s d (ground (arith, lookup-insert self s changed w.commands))
  ]

  -- The queue with the channel's event at its end, taken whole.
  drain-event :
      (info : RefCountedChannel)
      → at w self ≡ some c
      → have_channel c.name w ≡ some info
      → AreOwn w.commands
      → All (IsServable w) w.queue
      → let q = w.queue ++ event_of self changed info ∷ [] in
        drain q (record changed_world { queue = q })
        ≡ done (record changed_world {
          queue = [];
          tcl_calls =
              w.tcl_calls
              ++ (queue_calls w.known_channels changed_world.commands w.queue
                  ++ sets self (Channel.get_value changed.channel) c.linked_variables);
        })
  unfolding have_channel
  drain-event info here known own servable =
      let e = event_of self changed info in
      let q = w.queue ++ e ∷ [] in
      let last : event_calls w.known_channels changed_world.commands e
          ≡ sets self (Channel.get_value changed.channel) c.linked_variables =
        rw (known, event_calls) (rw changed-here) in
      drain-calls q (record changed_world { queue = q }) (AreOwn-changed here own)
        (All-append (IsServable changed_world) w.queue (e ∷ [])
          (AreServable-changed here w.queue servable) (inr (changed, changed-here), tt))
        refl
      ∙ ap (λ calls. done (record changed_world { queue = []; tcl_calls = w.tcl_calls ++ calls }))
          (queue_calls-append w.known_channels changed_world.commands w.queue (e ∷ [])
            ∙ ap (λ calls. queue_calls w.known_channels changed_world.commands w.queue ++ calls)
                (append-nil (event_calls w.known_channels changed_world.commands e) ∙ last))

  -- In a sound world in which the command of each queued event lives or the event's name is not
  -- known, a normal update event of a channel with a converter and linked variables sets each of
  -- them, in the order of the list, to the event's converted value: for each variable, the command's
  -- trace is taken off, the variable is set, and the trace is put on again. It does so at once on the
  -- interpreter's thread; and on another thread when the interpreter has taken the queued events one
  -- after the other, and not before. It takes them all, each with the calls that set the linked
  -- variables of its own command to its channel's value, or none where its name is not known, and
  -- this one last.
  pub channel_event-shown :
      IsSound w
      → at w self ≡ some c
      → is_empty c.linked_variables ≡ false
      → c.channel.converter ≡ some k
      → args.normal ≡ true
      → All (IsServable w) w.queue
      → let calls = sets self (Converter.call p k args).1 c.linked_variables in
        (thread ≡ c.interpreter_thread
          → (w' : World) × (channel_event p thread now self args w ≡ done w')
            × (w'.tcl_calls ≡ w.tcl_calls ++ calls))
        × (thread ≢ c.interpreter_thread
            → (w' : World) × (w'' : World) × (channel_event p thread now self args w ≡ done w')
              × (w'.tcl_calls ≡ w.tcl_calls)
              × (drain w'.queue w' ≡ done w'')
              × (w''.tcl_calls
                  ≡ w.tcl_calls
                    ++ (queue_calls w.known_channels changed_world.commands w.queue ++ calls))
              × (w''.queue ≡ []))
  unfolding have_channel
  channel_event-shown s here some_link conv n servable =
      let well = s.linked.well self c here in
      let slot : c.channel.handler ≡ some mark_change =
        well.slot ∙ ap (λ b. if b then none else some mark_change) some_link in
      let slot_data : c.channel.handler_data ≡ some self =
        well.slot_data ∙ ap (λ b. if b then none else some self) some_link in
      let own : AreOwn w.commands = λ a d e. (s.linked.well a d e).entries in
      let shows =
        update_all-sets self (Channel.get_value changed.channel) c.linked_variables well.entries in
      let (info, known, _) = s.registered.known self c here in
      let runs = channel_event-fires here n conv slot slot_data in
      let value = update_handler-value p now args c.channel k n conv in
      (
        (λ same. (
          shown self changed info changed_world,
          runs ∙ mark-here self changed info changed_world thread changed-here known same,
          rw (shows, value),
        )),
        λ other. (
          record changed_world { queue = w.queue ++ event_of self changed info ∷ [] },
          _,
          runs ∙ mark-elsewhere self changed info changed_world thread changed-here other,
          refl,
          drain-event info here known own servable,
          rw value,
          refl,
        ),
      )
