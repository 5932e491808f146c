-- ===== src/Units.antt =====
-- `CUnitChannel` of CUnitChannel.cpp, `CChannelList` of CChannelList.cpp, and the two visitors that
-- `foreach` runs over such a list: CLookupVisitor.cpp and CBuildChannelData.cpp.
pub mod Passes
pub mod Standing
pub mod Life
pub mod Balance
use epics_tcl.Prelude.{
  ℕ, ◌+◌, String, Bool, Option, none, some, List, [], ◌∷◌, ◌++◌, join, if◌then◌else◌,
}
use epics_tcl.Ca.{CaCall}
use epics_tcl.Channel
use epics_tcl.Channel.{Channel}
use epics_tcl.World.{Run, done, dangling, ◌>>=◌}

-- A channel and the channel of its units, `m_pUnits`, which it owns.
pub record UnitChannel : Type 0 where
  pub base : Channel
  pub units : Channel

unfoldable pub new : String → UnitChannel
new name = record { base = Channel.new name; units = Channel.new (join (name ∷ ".EGU" ∷ [])) }

-- The destructor's calls: first those of the units channel, which the body deletes.
unfoldable pub destroy : UnitChannel → List CaCall
destroy c = (Channel.destroy c.units).1 ++ (Channel.destroy c.base).1

unfoldable pub get_units_name : UnitChannel → String
get_units_name c = Channel.get_name c.units

unfoldable pub has_units : UnitChannel → Bool
has_units c = Channel.is_connected c.units

unfoldable pub get_units : UnitChannel → String
get_units c = Channel.get_value c.units

-- `Connect`; the ids are what channel access writes for the two channels.
unfoldable pub connect : ℕ × ℕ → UnitChannel → UnitChannel × List CaCall
connect ids c =
    let (base, calls) = Channel.connect ids.0 c.base in
    let (units, more) = Channel.connect ids.1 c.units in
    (record { base = base; units = units }, calls ++ more)

-- What a pointer of the list points to: a `CChannel`, or the derived class.
pub data Item : Type 0 where
  plain : Channel → Item
  with_units : UnitChannel → Item

unfoldable pub base_of : Item → Channel
base_of (plain c) = c
base_of (with_units c) = c.base

-- `Connect`, a virtual member.
unfoldable pub connect_item : ℕ × ℕ → Item → Item × List CaCall
unfolding connect
connect_item ids (plain c) = let (c', calls) = Channel.connect ids.0 c in (plain c', calls)
connect_item ids (with_units c) = let (c', calls) = connect ids c in (with_units c', calls)

-- The destructors, and so the calls of the list's destructor, from the front.
unfoldable pub destroy_item : Item → List CaCall
unfolding destroy
destroy_item (plain c) = (Channel.destroy c).1
destroy_item (with_units c) = destroy c

unfoldable pub destroy_list : List Item → List CaCall
unfolding destroy_item
destroy_list [] = []
destroy_list (i ∷ is) = destroy_item i ++ destroy_list is

unfoldable pub push_back : Item → List Item → List Item
push_back i is = is ++ i ∷ []

-- `CLookupVisitor::operator()`.
unfoldable pub look_up : ℕ × ℕ → Item → Item × List CaCall
unfolding connect_item base_of
look_up ids i = if Channel.is_connected (base_of i) then (i, []) else connect_item ids i

-- `foreach` with that visitor; `ids` answers for the items by their places, from `n` on.
unfoldable pub look_up_all : (ℕ → ℕ × ℕ) → ℕ → List Item → List Item × List CaCall
unfolding look_up
look_up_all ids n [] = ([], [])
look_up_all ids n (i ∷ is) =
    let (i', calls) = look_up (ids n) i in
    let (is', more) = look_up_all ids (n + 1) is in (i' ∷ is', calls ++ more)

pub record ChannelData : Type 0 where
  pub value : String
  pub units : String
  pub updated : ℕ

-- `CBuildChannelData::operator()`: the name and the data that it adds. The result of the
-- `dynamic_cast` is used untested, and is NULL for a plain channel.
unfoldable pub channel_item : Item → Run (String × ChannelData)
unfolding get_units
channel_item (plain c) = dangling
channel_item (with_units c) = done (
  Channel.get_name c.base,
  record {
    value = Channel.get_value c.base;
    units = get_units c;
    updated = Channel.get_last_update c.base;
  },
)

-- `foreach` with that visitor, which starts with the data `acc`.
unfoldable pub build_all :
    List (String × ChannelData) → List Item → Run (List (String × ChannelData))
unfolding channel_item
build_all acc [] = done acc
build_all acc (i ∷ is) = do x ← channel_item i; build_all (acc ++ x ∷ []) is
