-- ===== src/System/Progress.antt =====
-- When the program goes through the address of an object that is gone, and when it does not.
use epics_tcl.Prelude.{
  ℕ, ◌≡◌, refl, ◌↔◌, ◌≢◌, String, none, some, [], ◌∷◌, eq_refl, nat_eq_iff, Option-cases, inl, inr,
  arith,
}
use epics_tcl.Prelude.Int.{pos}
use epics_tcl.Tcl.{Tcl}
use epics_tcl.Map.{string_eq, address_eq, lookup-insert, lookup-erase, All-lookup}
use epics_tcl.Command.{Command}
use epics_tcl.World.{World, RefCountedChannel, ChangeEvent, done, dangling, at, decrement}
use epics_tcl.Registry.{
  have_channel, epicschannel, delete_channel, make_channel, new_command, Fresh,
}
use epics_tcl.Registry.Sound.{Entry}
use epics_tcl.Change.{update, update_linked_variable}
use epics_tcl.System.{IsSound}
use epics_tcl.System.Operations.{epicschannel-new, with_new, answered, without, delete_channel-last}

-- The processing of a change event goes through the address of an object that is gone exactly if a
-- channel of the event's name is known and the event's own command is gone.
pub update-dangling_iff :
    (e : ChangeEvent) (w : World)
    → (update e w ≡ dangling)
      ↔ ((have_channel e.channel_name w ≢ none) × (at w e.changed_channel ≡ none))
unfolding update update_linked_variable
update-dangling_iff e w = elim (Option-cases (have_channel e.channel_name w)) [
  | inl gone ↦ ((λ d. absurd (ground arith)), (λ h. absurd (h.0 gone)))
  | inr (info, here) ↦ elim (Option-cases (at w e.changed_channel)) [
    | inl dead ↦ ((λ d. ((λ q. cc), dead)), (λ h. rw (here, update) (rw dead)))
    | inr (c, live) ↦ ((λ d. absurd (ground arith)), (λ h. absurd (cc)))
  ]
]

with_new-known :
    (f : Fresh) (name : String) (w : World) → have_channel name (with_new f name w) ≢ none
unfolding make_channel new_command have_channel
with_new-known f name w e = ground (
  arith,
  lookup-insert name name (record { refcount = pos 1; command = f.address })
      (make_channel f name w).known_channels,
  eq_refl name,
)

with_new-gone :
    (f : Fresh) (name : String) (self : ℕ) (c : Command) (w : World)
    → f.address ≢ self
    → at (with_new f name (without name self c w)) self ≡ none
unfolding make_channel new_command
with_new-gone f name self c w other =
    simp (lookup-insert, lookup-erase)
      (ground (arith, nat_eq_iff f.address self, nat_eq_iff self self))

-- In a sound world, an event of a channel with one reference is processed through the address of an
-- object that is gone, if before its turn the channel is deleted and made again at another address.
update_of_recreated :
    (w : World) (name command : String) (info : RefCountedChannel) (f : Fresh)
    → IsSound w
    → have_channel name w ≡ some info
    → info.refcount ≡ pos 1
    → f.address ≢ info.command
    → (w' : World) × (w'' : World) × (delete_channel name w ≡ done w')
      × (epicschannel f command (command ∷ name ∷ []) w' ≡ done (answered w''))
      × (update (record { changed_channel = info.command; channel_name = name }) w'' ≡ dangling)
unfolding have_channel decrement
update_of_recreated w name command info f s here one other =
    let (c, live, _, _) =
      All-lookup (Entry w.commands) name w.known_channels s.registered.entries here in
    let w' = without name info.command c w in
    let unknown : have_channel name w' ≡ none =
      rw (lookup-erase name name w.known_channels, eq_refl name) in
    (
      w',
      with_new f name w',
      delete_channel-last name info w here c (rw one) live,
      epicschannel-new f command (command ∷ name ∷ []) w' refl unknown,
      (update-dangling_iff (record { changed_channel = info.command; channel_name = name })
            (with_new f name w')).1
          (with_new-known f name w', with_new-gone f name info.command c w other),
    )
