-- ===== src/System/Ledger/Operations.antt =====
-- Each operation keeps the account.
use epics_tcl.Prelude.{
  join, subst, ℕ, ◌≡◌, refl, String, Bool, true, false, some, none, List, [], ◌∷◌, nat_eq,
  nat_eq_iff, ltb, length, is_empty, Bool-cases, Option-cases, inl, inr, if◌then◌else◌,
}
use mathlib.Core.List.{append-nil}
use epics_tcl.Ca.{ConnectionArgs, EventArgs, Platform}
use epics_tcl.Tcl.{Tcl, tcl_ok, Reply}
use epics_tcl.Channel
use epics_tcl.Channel.{
  mark_change, Slot, set_slot, state_handler, update_handler, subscribe, with_converter,
}
use epics_tcl.Channel.Lifecycle.{Alternates}
use epics_tcl.Map.{lookup, insert, address_eq, string_eq, All-lookup}
use epics_tcl.Command.{Command, fail, usage, find, word}
use epics_tcl.Variable
use epics_tcl.World.{World, calls_ca, store, done, at, is_zero, decrement}
use epics_tcl.Registry.{
  Fresh, epics_usage, have_channel, delete_channel, epicschannel, make_channel, new_command,
}
use epics_tcl.Registry.Sound.{Entry}
use epics_tcl.Links.{
  silent, link_usage, already_linked, link, unlink, linked_world, unlinked_world, drop_link,
}
use epics_tcl.Links.Sound.{is_linked-done}
use epics_tcl.Change.Frame.{Frame, fire-Frame}
use epics_tcl.Change.{fire, channel_event, connection_event}
use epics_tcl.Dispatch.{Answers, Subcommand, subcommand, run, delete_self, invoke, variable_write}
use epics_tcl.System.{IsSound}
use epics_tcl.System.Operations.{
  Ends, epicschannel-new, epicschannel-known, delete_channel-last, delete_channel-more,
}
use epics_tcl.System.Ledger.{Accounted}
use epics_tcl.System.Ledger.Channels.{
  set-IsNeutral, on_write-IsNeutral, set_slot-LivesOn, same-LivesOn, update_handler-LivesOn,
  state_handler-LivesOn,
}
use epics_tcl.System.Ledger.Moves.{
  LivesOn, Accounted-neutral, Accounted-replaced, Accounted-created, Accounted-deleted,
}

-- The account of a world.
abbrev pub AccountedWorld : Platform → World → Type 0
AccountedWorld p w = Accounted p w.commands w.ca_calls

abbrev pub Answered : Platform → World × Reply → Type 0
Answered p x = AccountedWorld p x.0

module _ (p : Platform) where
  -- A live command changes, and its channel lives on without a call.
  stored :
      (self : ℕ) (c c' : Command) (w : World)
      → lookup self w.commands ≡ some c
      → LivesOn p c.channel c'.channel []
      → AccountedWorld p w
      → Accounted p (insert self c' w.commands) w.ca_calls
  stored self c c' w here on a =
      subst (Accounted p (insert self c' w.commands)) (append-nil w.ca_calls)
        (Accounted-replaced a self c c' here on)

  delete_channel-Accounted :
      (name : String) (w : World)
      → IsSound w
      → AccountedWorld p w
      → Ends (AccountedWorld p) (delete_channel name w)
  unfolding delete_channel
  delete_channel-Accounted name w s a = elim (Option-cases (have_channel name w)) [
    | inl new ↦ (w, rw (new, delete_channel), a)
    | inr (info, here) ↦
        let (c, live, _, _) =
          All-lookup (Entry w.commands) name w.known_channels s.registered.entries here in
        elim (Bool-cases (is_zero (decrement info.refcount))) [
          | inl last ↦ (
            _,
            delete_channel-last name info w here c last live,
            Accounted-deleted a info.command c live,
          )
          | inr more ↦ (_, delete_channel-more name info w here more, a)
        ]
  ]

  pub epicschannel-Accounted :
      (f : Fresh) (command : String) (objv : List String) (w : World)
      → at w f.address ≡ none
      → AccountedWorld p w
      → Ends (Answered p) (epicschannel f command objv w)
  unfolding epicschannel make_channel new_command
  epicschannel-Accounted f command objv w free a = elim (Bool-cases (nat_eq (length objv) 2)) [
    | inr wrong ↦
        ((w, record { status = tcl_ok; result = some (epics_usage command) }), rw wrong, a)
    | inl right ↦
        let two = (nat_eq_iff (length objv) 2).0 right in
        elim (Option-cases (have_channel (word objv 1) w)) [
          | inl new ↦ (
            _,
            epicschannel-new f command objv w two new,
            Accounted-created a f (word objv 1) free,
          )
          | inr (info, old) ↦ (_, epicschannel-known f command objv w two info old, a)
        ]
  ]

  module _ (self : ℕ) (c : Command) (w : World) (here : lookup self w.commands ≡ some c)
      (a : AccountedWorld p w) where
    link-Accounted : (objv : List String) → IsSound w → Ends (Answered p) (link self c objv w)
    unfolding link linked_world
    link-Accounted objv s = elim (Bool-cases (nat_eq (length objv) 3)) [
      | inr wrong ↦ ((w, link_usage c), rw wrong, a)
      | inl right ↦
          let (taken, ended) = is_linked-done self (word objv 2) w s.registered in
          elim (Bool-cases taken) [
            | inl busy ↦ ((w, already_linked (word objv 2)), rw right (rw ended (rw busy)), a)
            | inr free ↦ (
              (linked_world self (word objv 2) c w, silent),
              rw right (rw ended (rw free)),
              stored self c _ w here (set_slot-LivesOn p (some mark_change) (some self) c.channel)
                  a,
            )
          ]
    ]

    unlink-Accounted : (objv : List String) → Answered p (unlink self c objv w)
    unfolding unlink unlinked_world
    unlink-Accounted objv = elim (Bool-cases (nat_eq (length objv) 3)) [
      | inr wrong ↦ rw wrong a
      | inl right ↦ rw right (elim (Option-cases (find (word objv 2) c.linked_variables)) [
        | inl absent ↦ rw (absent, unlink) a
        | inr (i, there) ↦
            rw (there, unlink)
              (stored self c _ w here
                (if-LivesOn (is_empty (drop_link (word objv 2) i c.linked_variables).0)) a)
      ])
    ]
      where
        if-LivesOn :
            (b : Bool)
            → LivesOn p c.channel (if b then Channel.set_slot none none c.channel else c.channel) []
        if-LivesOn true = set_slot-LivesOn p none none c.channel
        if-LivesOn false = same-LivesOn p c.channel

    run-Accounted :
        (t : Tcl) (n : Answers) (objv : List String) (s : Subcommand)
        → IsSound w
        → Ends (Answered p) (run p t n s self c objv w)
    unfolding run delete_self
    run-Accounted t n objv Subcommand.set s =
        (_, refl, Accounted-neutral a (set-IsNeutral p t n.element_count n.allocated c objv))
    run-Accounted t n objv Subcommand.delete s =
        let (w', ended, a') = delete_channel-Accounted c.name w s a in ((w', silent), rw ended, a')
    run-Accounted t n objv Subcommand.link s = link-Accounted objv s
    run-Accounted t n objv Subcommand.unlink s = (_, refl, unlink-Accounted objv)
    run-Accounted t n objv _ s = (_, refl, a)

    pub invoke-Accounted :
        (t : Tcl) (n : Answers) (objv : List String)
        → IsSound w
        → Ends (Answered p) (invoke p t n self objv w)
    unfolding invoke
    invoke-Accounted t n objv s = elim (Bool-cases (ltb (length objv) 2)) [
      | inl few ↦ (
        (
          w,
          fail (join (word objv 0 ∷ " -- incorrect number of command parameters\n" ∷ usage c ∷ [])),
        ),
        rw here (rw few),
        a,
      )
      | inr enough ↦
          let (x, ended, a') = run-Accounted t n objv (subcommand (word objv 1)) s in
          (x, rw here (rw enough ended), a')
    ]

    pub connection_event-Accounted :
        (args : ConnectionArgs)
        → Alternates args.op c.channel
        → Ends (AccountedWorld p) (connection_event self args w)
    unfolding connection_event
    connection_event-Accounted args o = (
      calls_ca (state_handler args c.channel).1
          (store self (record c { channel = (state_handler args c.channel).0 }) w),
      rw here,
      Accounted-replaced a self c _ here (state_handler-LivesOn p args c.channel o),
    )

    pub variable_write-Accounted :
        (contents : String) → Ends (AccountedWorld p) (variable_write self contents w)
    unfolding variable_write
    variable_write-Accounted contents = (
      calls_ca (Variable.on_write contents c.channel) w,
      rw here,
      Accounted-neutral a (on_write-IsNeutral p contents c.channel),
    )

  pub framed : {w w' : World} → Frame w w' → AccountedWorld p w → AccountedWorld p w'
  framed f a = rw (f.ca_calls, f.commands) a

  pub channel_event-Accounted :
      (thread now self : ℕ) (args : EventArgs) (c : Command) (w w' : World)
      → lookup self w.commands ≡ some c
      → AccountedWorld p w
      → channel_event p thread now self args w ≡ done w'
      → AccountedWorld p w'
  unfolding channel_event
  channel_event-Accounted thread now self args c w w' here a d =
      let next = update_handler p now args c.channel in
      let c' : Command = record c { channel = next.0 } in
      let d' : fire thread next.1 (store self c' w) ≡ done w' = rw (← d) (rw here) in
      framed (fire-Frame thread next.1 (store self c' w) w' d')
        (stored self c c' w here (update_handler-LivesOn p now args c.channel) a)
