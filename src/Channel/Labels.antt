-- ===== src/Channel/Labels.antt =====
-- The labels of an enumerated channel, from the first event after it was connected until it is
-- disconnected: the converter of CChannel.cpp learns them, and StateHandler deletes it.
use epics_tcl.Prelude.{ℕ, ◌≡◌, String, false, some, List, [], ◌∷◌, is_empty}
use epics_tcl.Ca.{ConnectionArgs, EventArgs, Platform, down}
use epics_tcl.Converter
use epics_tcl.Converter.{enum}
use epics_tcl.Converter.EnumConverter
use epics_tcl.Converter.EnumConverter.{labels}
use epics_tcl.Channel.{Channel, state_handler, update_handler}

-- What channel access calls back.
pub data Event : Type 0 where
  state : ConnectionArgs → Event
  updated : ℕ → EventArgs → Event

abbrev pub Stays : Event → Type 0
Stays (state args) = args.op ≡ down → ⊥
Stays (updated now args) = Unit

abbrev pub after : Platform → List Event → Channel → Channel
after p [] c = c
after p (state args ∷ es) c = after p es (state_handler args c).0
after p (updated now args ∷ es) c = after p es (update_handler p now args c).0

abbrev Knows : List String → Channel → Type 0
Knows l c = (c.converter ≡ some (enum l)) × (is_empty l ≡ false)

module _ (p : Platform) (now n : ℕ) (first : EventArgs) (es : List Event) (c : Channel) where
  -- The labels that the first event carries.
  abbrev carried : List String
  carried = labels (first.dbr.enums 0)
