-- ===== src/Units/Life.antt =====
-- The life of a channel list: channels are made and put on it, lookup passes run over it, channel
-- access calls back at its channels, and its destructor destroys them.
use epics_tcl.Prelude.{ℕ, String, List, [], ◌∷◌, ◌++◌}
use epics_tcl.Ca.{CaCall, ConnectionArgs, EventArgs, Platform}
use epics_tcl.Channel
use epics_tcl.Channel.{Channel, state_handler, update_handler}
use epics_tcl.Channel.Lifecycle.{Alternates}
use epics_tcl.Units.{
  UnitChannel, Item, plain, with_units, base_of, connect, connect_item, look_up, look_up_all,
  push_back, destroy, destroy_item, destroy_list,
}
use epics_tcl.Units
use epics_tcl.Units.Standing.{Standing, nothing, of_channel, both}

-- A callback at a channel of the list: a change of its connection, in channel access's order, or an
-- update.
pub data Callback (p : Platform) : Channel → Channel → List CaCall → Type 0 where
  changes :
      (c : Channel) (args : ConnectionArgs)
      → Alternates args.op c
      → Callback p c (state_handler args c).0 (state_handler args c).1
  updates :
      (c : Channel) (now : ℕ) (args : EventArgs) → Callback p c (update_handler p now args c).0 []

-- At the channel itself, or at one of the two of a channel with units.
pub data ItemCallback (p : Platform) : Item → Item → List CaCall → Type 0 where
  at_channel :
      {c c' : Channel} {calls : List CaCall}
      → Callback p c c' calls
      → ItemCallback p (plain c) (plain c') calls
  at_base :
      {c c' : Channel} {calls : List CaCall} (units : Channel)
      → Callback p c c' calls
      → ItemCallback p
          (with_units (record { base = c; units = units }))
          (with_units (record { base = c'; units = units }))
          calls
  at_units :
      {c c' : Channel} {calls : List CaCall} (base : Channel)
      → Callback p c c' calls
      → ItemCallback p
          (with_units (record { base = base; units = c }))
          (with_units (record { base = base; units = c' }))
          calls

pub data ListLife (p : Platform) : List Item → List CaCall → Type 0 where
  made : ListLife p [] []
  pushes_channel :
      {is : List Item} {log : List CaCall}
      → ListLife p is log
      → (name : String) → ListLife p (push_back (plain (Channel.new name)) is) log
  pushes_units :
      {is : List Item} {log : List CaCall}
      → ListLife p is log
      → (name : String) → ListLife p (push_back (with_units (Units.new name)) is) log
  looks_up :
      {is : List Item} {log : List CaCall}
      → ListLife p is log
      → (ids : ℕ → ℕ × ℕ) → ListLife p (look_up_all ids 0 is).0 (log ++ (look_up_all ids 0 is).1)
  called_back :
      (before after : List Item) {i i' : Item} {log calls : List CaCall}
      → ListLife p (before ++ i ∷ after) log
      → ItemCallback p i i' calls
      → ListLife p (before ++ i' ∷ after) (log ++ calls)

module _ (p : Platform) where
  abbrev pub of_item : Item → Standing
  of_item (plain c) = of_channel p c
  of_item (with_units c) = both (of_channel p c.base) (of_channel p c.units)

  abbrev pub of_list : List Item → Standing
  of_list [] = nothing
  of_list (i ∷ is) = both (of_item i) (of_list is)
