-- ===== src/Units/Passes.antt =====
-- The two visitors over a list of channels.
use mathlib.Core.List.{append-nil, append_assoc}
use epics_tcl.Prelude.{
  ℕ, ◌+◌, ◌≡◌, refl, ap, sym, ◌∙◌, String, List, [], ◌∷◌, ◌++◌, map, Bool-cases, inl, inr,
}
use epics_tcl.Channel
use epics_tcl.Channel.{Channel}
use epics_tcl.World.{done, dangling}
use epics_tcl.Units.{
  UnitChannel, Item, plain, with_units, base_of, connect, connect_item, look_up, look_up_all,
  build_all, ChannelData, channel_item, get_units,
}

-- A second connection of a channel changes nothing.
connect-connect :
    (a b : ℕ) (c : Channel)
    → Channel.connect b (Channel.connect a c).0 ≡ ((Channel.connect a c).0, [])
unfolding Channel.connect
connect-connect a b c = elim (Bool-cases c.connection_handler_established) [
  | inl t ↦ rw t refl
  | inr f ↦ rw f refl
]

look_up-look_up : (a b : ℕ × ℕ) (i : Item) → look_up b (look_up a i).0 ≡ ((look_up a i).0, [])
unfolding look_up connect_item connect base_of Channel.is_connected Channel.connect
look_up-look_up a b (plain c) = elim (Bool-cases c.connected) [
  | inl on ↦ rw on refl
  | inr off ↦ elim (Bool-cases c.connection_handler_established) [
    | inl t ↦ rw (off, t) refl
    | inr f ↦ rw (off, f) refl
  ]
]
look_up-look_up a b (with_units c) = elim (Bool-cases c.base.connected) [
  | inl on ↦ rw on refl
  | inr off ↦ elim (Bool-cases c.base.connection_handler_established) [
    | inl t ↦ elim (Bool-cases c.units.connection_handler_established) [
      | inl u ↦ rw (off, t, u) refl
      | inr u ↦ rw (off, t, u) refl
    ]
    | inr f ↦ elim (Bool-cases c.units.connection_handler_established) [
      | inl u ↦ rw (off, f, u) refl
      | inr u ↦ rw (off, f, u) refl
    ]
  ]
]

-- A second lookup pass over a list changes no channel and makes no call of channel access, whatever
-- ids it would be given.
look_up_all-look_up_all :
    (ids ids' : ℕ → ℕ × ℕ) (n m : ℕ) (is : List Item)
    → look_up_all ids' m (look_up_all ids n is).0 ≡ ((look_up_all ids n is).0, [])
unfolding look_up_all
look_up_all-look_up_all ids ids' n m [] = refl
look_up_all-look_up_all ids ids' n m (i ∷ is) =
    rw (look_up-look_up (ids n) (ids' m) i, look_up_all-look_up_all ids ids' (n + 1) (m + 1) is)
      refl

-- What the data of a channel with units must be.
abbrev pub data_of : UnitChannel → String × ChannelData
data_of c = (
  c.base.name,
  record { value = c.base.value; units = c.units.value; updated = c.base.last_update_time },
)

build_all-units :
    (cs : List UnitChannel) (acc : List (String × ChannelData))
    → build_all acc (map with_units cs) ≡ done (acc ++ map data_of cs)
unfolding build_all channel_item get_units Channel.get_name Channel.get_value
    Channel.get_last_update
build_all-units [] acc = ap done (sym (append-nil acc))
build_all-units (c ∷ cs) acc =
    build_all-units cs (acc ++ data_of c ∷ [])
    ∙ ap done (append_assoc acc (data_of c ∷ []) (map data_of cs))

build_all-plain :
    (before : List UnitChannel) (c : Channel) (after : List Item)
    (acc : List (String × ChannelData))
    → build_all acc (map with_units before ++ plain c ∷ after) ≡ dangling
unfolding build_all channel_item
build_all-plain [] c after acc = refl
build_all-plain (b ∷ before) c after acc = build_all-plain before c after _

-- Over a list of channels that all have units, the data visitor collects each channel's name, value,
-- units and time, in the list's order; at the first plain channel it goes through a null pointer.
build_all_lem :
    (cs : List UnitChannel) (c : Channel) (after : List Item)
    → (build_all [] (map with_units cs) ≡ done (map data_of cs))
      × (build_all [] (map with_units cs ++ plain c ∷ after) ≡ dangling)
build_all_lem cs c after = (build_all-units cs [], build_all-plain cs c after [])
