-- ===== src/System/Teardown.antt =====
-- Updates that arrive while a command is destroyed are lost without a trace.
use epics_tcl.Prelude.{
  eq_refl, All-append, ℕ, String, ◌≡◌, refl, sym, ap, ◌∙◌, ◌⊎◌, none, some, List, [], ◌∷◌, ◌++◌,
  All, nat_eq, nat_eq_iff, Bool-cases, Option-cases, inl, inr, arith, subst,
}
use mathlib.Core.List.{append-nil, append_assoc}
use epics_tcl.Ca.{Platform, EventArgs}
use epics_tcl.Channel
use epics_tcl.Channel.{Channel, mark_change, update_handler}
use epics_tcl.Map.{
  All-lookup, lookup-erase, lookup, erase, string_eq, address_eq, lookup-insert, erase-insert,
}
use epics_tcl.Command.{Command}
use epics_tcl.World.{
  World, ChangeEvent, Run, done, dangling, ◌>>=◌, store, calls_ca, calls_tcl, is_zero, decrement,
}
use epics_tcl.Registry.{delete_variables, have_channel, delete_channel, delete_command, unregister}
use epics_tcl.Change.{update, update_linked_variable, dispatch, channel_event, mark, fire}
use epics_tcl.Change.Frame.{update-Frame}
use epics_tcl.Change.Teardown.{
  begin_delete, end_delete, Arrival, arrivals, delete_with, delete_channel_with,
}
use epics_tcl.System.{IsSound}
use epics_tcl.Registry.Sound.{Entry}
use epics_tcl.Links.Sound.{IsWell}
use epics_tcl.System.Operations.{delete_channel-more}
use epics_tcl.System.Drain.{drain}

-- The queue is no matter for the processing of an event.
update-queue :
    (e : ChangeEvent) (w : World) (q : List ChangeEvent)
    → update e (record w { queue = q }) ≡ (update e w >>= λ w'. done (record w' { queue = q }))
unfolding update update_linked_variable have_channel
update-queue e w q = elim (Option-cases (lookup e.channel_name w.known_channels)) [
  | inl gone ↦ rw (gone, update)
  | inr (info, known) ↦
      rw (known, update)
        (elim (Option-cases (lookup e.changed_channel w.commands)) [
          | inl dead ↦ rw dead
          | inr (c, live) ↦ rw live
        ])
]

abbrev IsUnknown : World → ChangeEvent → Type 0
IsUnknown w e = lookup e.channel_name w.known_channels ≡ none

drain-unknown :
    (es : List ChangeEvent) (w : World)
    → All (IsUnknown w) es
    → drain es (record w { queue = es }) ≡ done (record w { queue = [] })
unfolding drain dispatch update have_channel
drain-unknown [] w h = refl
drain-unknown (e ∷ es) w h = rw (h.0, update) (drain-unknown es w h.1)

-- Events of unknown channels at the end of the queue do nothing.
drain-append :
    (q es : List ChangeEvent) (w : World)
    → All (IsUnknown w) es
    → drain (q ++ es) (record w { queue = q ++ es }) ≡ drain q (record w { queue = q })
unfolding drain dispatch
drain-append [] es w h = drain-unknown es w h
drain-append (e ∷ q) es w h =
    rw (update-queue e w (q ++ es), update-queue e w q)
      (go (λ w' h'. drain-append q es w' h') (update e w) refl)
  where
    go :
        ((w' : World)
          → All (IsUnknown w') es
          → drain (q ++ es) (record w' { queue = q ++ es }) ≡ drain q (record w' { queue = q }))
        → (r : Run World) → update e w ≡ r
        → ((r >>= λ w'. done (record w' { queue = q ++ es })) >>= λ w'. drain (q ++ es) w')
          ≡ ((r >>= λ w'. done (record w' { queue = q })) >>= λ w'. drain q w')
    go again dangling ended = refl
    go again (done w') ended = again w' (
        subst (λ m. All (λ e. lookup e.channel_name m ≡ none) es)
          (sym (update-Frame e w w' ended).channels) h)

-- During the wait: a command whose channel has no converter, and whose name is not known.
module _ (p : Platform) (self : ℕ) (c : Command) (idle : c.channel.converter ≡ none)
    (own : (c.channel.handler ≡ none)
      ⊎ ((c.channel.handler ≡ some mark_change) × (c.channel.handler_data ≡ some self))) where
  record Waited (w w' : World) : Type 0 where
    channels : w'.known_channels ≡ w.known_channels
    here : lookup self w'.commands ≡ some c
    others : erase self w'.commands ≡ erase self w.commands
    late : List ChangeEvent
    queue : w'.queue ≡ w.queue ++ late
    unknown : All (IsUnknown w) late
    ca_calls : w'.ca_calls ≡ w.ca_calls
    tcl_calls : w'.tcl_calls ≡ w.tcl_calls

  abbrev event : ChangeEvent
  event = record { changed_channel = self; channel_name = c.name }

  -- What the handler makes of an update.
  idle-update :
      (now : ℕ) (args : EventArgs)
      → let (ch, fired) = update_handler p now args c.channel in
        (ch ≡ c.channel) × ((fired ≡ none) ⊎ (fired ≡ some (mark_change, some self)))
  unfolding update_handler Channel.update Channel.refresh
  idle-update now args = ground arith

  stored-Waited :
      (w : World) (q late : List ChangeEvent)
      → q ≡ w.queue ++ late
      → All (IsUnknown w) late
      → Waited w (record (store self c w) { queue = q })
  stored-Waited w q late e h = record {
    channels = refl;
    here = rw (lookup-insert self self c w.commands, (nat_eq_iff self self).1 refl);
    others = erase-insert self c w.commands;
    late = late;
    queue = e;
    unknown = h;
    ca_calls = refl;
    tcl_calls = refl;
  }

  -- An update that arrives changes nothing but the queue.
  one-Waited :
      (a : Arrival) (w : World)
      → lookup self w.commands ≡ some c
      → lookup c.name w.known_channels ≡ none
      → (w' : World) × (channel_event p a.thread a.now self a.args w ≡ done w') × Waited w w'
  unfolding channel_event fire mark update have_channel
  one-Waited a w here unknown =
      let (same, fires) = idle-update a.now a.args in
      let w1 = store self c w in
      let there : lookup self w1.commands ≡ some c =
        rw (lookup-insert self self c w.commands, (nat_eq_iff self self).1 refl) in
      let starts : channel_event p a.thread a.now self a.args w
          ≡ fire a.thread (update_handler p a.now a.args c.channel).1 w1 =
        rw here (
          ap
            (λ ch.
              fire a.thread (update_handler p a.now a.args c.channel).1
                (store self (record c { channel = ch }) w))
            same) in
      elim fires [
        | inl quiet ↦ (
          w1,
          starts ∙ rw (quiet, fire),
          stored-Waited w w.queue [] (sym (append-nil w.queue)) tt,
        )
        | inr fired ↦ elim (Bool-cases (nat_eq a.thread c.interpreter_thread)) [
          | inl tcl ↦ (
            w1,
            starts ∙ rw (fired, fire) (rw there (rw tcl (rw (unknown, update)))),
            stored-Waited w w.queue [] (sym (append-nil w.queue)) tt,
          )
          | inr other ↦ (
            record w1 { queue = w.queue ++ event ∷ [] },
            starts ∙ rw (fired, fire) (rw there (rw other)),
            stored-Waited w _ (event ∷ []) refl (unknown, tt),
          )
        ]
      ]

  Waited-refl : (w : World) → lookup self w.commands ≡ some c → Waited w w
  Waited-refl w here = record {
    channels = refl;
    here = here;
    others = refl;
    late = [];
    queue = sym (append-nil w.queue);
    unknown = tt;
    ca_calls = refl;
    tcl_calls = refl;
  }

  Waited-trans : {w w1 w2 : World} → Waited w w1 → Waited w1 w2 → Waited w w2
  Waited-trans {w} {w1} {w2} g h = record {
    channels = h.channels ∙ g.channels;
    here = h.here;
    others = h.others ∙ g.others;
    late = g.late ++ h.late;
    queue = h.queue ∙ ap (λ q. q ++ h.late) g.queue ∙ append_assoc w.queue g.late h.late;
    unknown =
        All-append (IsUnknown w) g.late h.late g.unknown
          (subst (λ m. All (λ e. lookup e.channel_name m ≡ none) h.late) g.channels h.unknown);
    ca_calls = h.ca_calls ∙ g.ca_calls;
    tcl_calls = h.tcl_calls ∙ g.tcl_calls;
  }

  arrivals-Waited :
      (as' : List Arrival) (w : World)
      → lookup self w.commands ≡ some c
      → lookup c.name w.known_channels ≡ none
      → (w' : World) × (arrivals p self as' w ≡ done w') × Waited w w'
  unfolding arrivals
  arrivals-Waited [] w here unknown = (w, refl, Waited-refl w here)
  arrivals-Waited (a ∷ as') w here unknown =
      let (w1, first, g) = one-Waited a w here unknown in
      let (w2, rest, h) = arrivals-Waited as' w1 g.here (ap (lookup c.name) g.channels ∙ unknown) in
      (w2, rw first rest, Waited-trans g h)

same_world :
    {a b : World}
    → a.known_channels ≡ b.known_channels
    → a.commands ≡ b.commands
    → a.queue ≡ b.queue
    → a.ca_calls ≡ b.ca_calls
    → a.tcl_calls ≡ b.tcl_calls
    → a ≡ b
same_world f g h k l = ground arith

-- The destructor with the updates that arrive in its wait, against the destructor at one go.
module _ (p : Platform) (self : ℕ) (c : Command) (late : List Arrival) (w : World)
    (own : (c.channel.handler ≡ none)
      ⊎ ((c.channel.handler ≡ some mark_change) × (c.channel.handler_data ≡ some self)))
    (here : lookup self w.commands ≡ some c) (unknown : lookup c.name w.known_channels ≡ none) where
  abbrev gone : Command
  gone = record c { channel = (Channel.destroy c.channel).0 }

  abbrev deleted : World
  deleted =
      calls_tcl (delete_variables c.linked_variables)
        (calls_ca (Channel.destroy c.channel).1 (record w { commands = erase self w.commands }))

  delete_with-queue :
      (w' : World) × (es : List ChangeEvent) × (delete_command self w ≡ done w')
      × (delete_with p self late w ≡ done (record w' { queue = w'.queue ++ es }))
      × All (IsUnknown w') es
  unfolding delete_command delete_with begin_delete end_delete Channel.destroy
  delete_with-queue =
      let w1 = calls_ca (Channel.destroy c.channel).1 (store self gone w) in
      let there : lookup self w1.commands ≡ some gone =
        rw (lookup-insert self self gone w.commands, (nat_eq_iff self self).1 refl) in
      let (w2, ended, h) = arrivals-Waited p self gone refl own late w1 there unknown in
      (
        deleted,
        h.late,
        rw here refl,
        rw here (
            rw ended (
              rw h.here (
                ap done (
                  same_world h.channels (h.others ∙ erase-insert self gone w.commands) h.queue
                    h.ca_calls (ap (λ l. l ++ delete_variables c.linked_variables) h.tcl_calls))))),
        h.unknown,
      )

-- A live command's slot, if it is set, marks that command.
own_slot :
    (self : ℕ) (c : Command)
    → IsWell self c
    → (c.channel.handler ≡ none)
      ⊎ ((c.channel.handler ≡ some mark_change) × (c.channel.handler_data ≡ some self))
own_slot self c well = ground (arith, well.slot, well.slot_data)

-- On a sound world, `deleteChannel` ends, also where updates of its channel arrive, on any threads,
-- while the destructor of the channel waits in doEvents; and once the interpreter has taken the events of
-- its queue, the world is the one that it would be if none had arrived, if the channel was not made
-- again in between.
pub delete_channel-late_updates :
    (p : Platform) (late : List Arrival) (name : String) (w : World)
    → IsSound w
    → (w1 : World) × (w2 : World) × (delete_channel name w ≡ done w1)
      × (delete_channel_with p late name w ≡ done w2)
      × (drain w2.queue w2 ≡ drain w1.queue w1)
unfolding delete_channel delete_channel_with
delete_channel-late_updates p late name w s = elim (Option-cases (have_channel name w)) [
  | inl new ↦ (w, w, rw (new, delete_channel), rw (new, delete_channel_with), refl)
  | inr (info, here) ↦
      let (c, live, named, _) =
        All-lookup (Entry w.commands) name w.known_channels s.registered.entries here in
      elim (Bool-cases (is_zero (decrement info.refcount))) [
        | inl last ↦
            let unknown : lookup c.name (erase name w.known_channels) ≡ none =
              rw (named, lookup-erase name name w.known_channels, eq_refl name) in
            let (w1, es, whole, halves, ignored) =
              delete_with-queue p info.command c late (unregister name w)
                (own_slot info.command c (s.linked.well info.command c live)) live unknown in
            (
              w1,
              record w1 { queue = w1.queue ++ es },
              rw (here, delete_channel) (rw last whole),
              rw (here, delete_channel_with) (rw last halves),
              drain-append w1.queue es w1 ignored,
            )
        | inr more ↦ (
          _,
          _,
          delete_channel-more name info w here more,
          rw (here, delete_channel_with) (rw more),
          refl,
        )
      ]
]
