-- ===== src/Change/Frame.antt =====
-- What the processing of a change leaves as it was.
use epics_tcl.Prelude.{
  ℕ, ◌≡◌, refl, Option, none, some, List, [], ◌∷◌, nat_eq, Bool-cases, Option-cases, inl, inr,
  arith,
}
use epics_tcl.Channel.{Slot, mark_change}
use epics_tcl.Map.{address_eq, string_eq}
use epics_tcl.World.{World, ChangeEvent, done, at}
use epics_tcl.Registry.{have_channel}
use epics_tcl.Change.{update_linked_variable, update, mark, fire, dispatch}

-- Neither the known channels nor the live commands change, and channel access is not called.
pub record Frame (w w' : World) : Type 0 where
  pub channels : w'.known_channels ≡ w.known_channels
  pub commands : w'.commands ≡ w.commands
  pub ca_calls : w'.ca_calls ≡ w.ca_calls

Frame-refl : (w : World) → Frame w w
Frame-refl w = record { channels = refl; commands = refl; ca_calls = refl }

Frame-done : {w w' : World} → done w ≡ done w' → Frame w w'
Frame-done e = record { channels = ground arith; commands = ground arith; ca_calls = ground arith }

update_linked_variable-Frame :
    (self : ℕ) (w w' : World) → update_linked_variable self w ≡ done w' → Frame w w'
unfolding update_linked_variable
update_linked_variable-Frame self w w' d = elim (Option-cases (at w self)) [
  | inl gone ↦ absurd (ground arith)
  | inr (c, here) ↦ record {
    channels = ground arith;
    commands = ground arith;
    ca_calls = ground arith;
  }
]

pub update-Frame : (e : ChangeEvent) (w w' : World) → update e w ≡ done w' → Frame w w'
unfolding update
update-Frame e w w' d = elim (Option-cases (have_channel e.channel_name w)) [
  | inl gone ↦ Frame-done (ground arith)
  | inr (info, known) ↦ update_linked_variable-Frame e.changed_channel w w' (ground arith)
]

mark-Frame : (thread self : ℕ) (w w' : World) → mark thread self w ≡ done w' → Frame w w'
unfolding mark
mark-Frame thread self w w' d = elim (Option-cases (at w self)) [
  | inl gone ↦ absurd (ground arith)
  | inr (c, here) ↦ elim (Bool-cases (nat_eq thread c.interpreter_thread)) [
    | inl same ↦
        update-Frame (record { changed_channel = self; channel_name = c.name }) w w' (ground arith)
    | inr other ↦ record {
      channels = ground arith;
      commands = ground arith;
      ca_calls = ground arith;
    }
  ]
]

pub fire-Frame :
    (thread : ℕ) (x : Option (Slot × Option ℕ)) (w w' : World)
    → fire thread x w ≡ done w'
    → Frame w w'
unfolding fire
fire-Frame thread none w w' d = Frame-done d
fire-Frame thread (some (mark_change, none)) w w' d = cc
fire-Frame thread (some (mark_change, some self)) w w' d = mark-Frame thread self w w' d

pub dispatch-Frame : (es : List ChangeEvent) (w w' : World) → dispatch es w ≡ done w' → Frame w w'
unfolding dispatch
dispatch-Frame [] w w' d = Frame-done d
dispatch-Frame (e ∷ es) w w' d =
    let f = update-Frame e (record w { queue = es }) w' d in
    record { channels = f.channels; commands = f.commands; ca_calls = f.ca_calls }
