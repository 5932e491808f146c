-- ===== src/Channel.antt =====
-- `CChannel` of CChannel.h and CChannel.cpp: its state, and its members but the assignments, which
-- are in Channel/Put. A member returns the channel afterwards beside the calls of channel access
-- that it makes, and is one step. Monitor relates this to the members' single accesses under the
-- channel's monitor; `getAllowedValues`, `size`, the first test of the vector assignments and the
-- first statement of the destructor do not hold it.
pub mod Put
pub mod PutBounds
pub mod Lifecycle
pub mod Reads
pub mod Labels
use epics_tcl.Prelude.{
  ℕ, String, Bool, true, false, ◌||◌, Option, none, some, is_some, List, [], ◌∷◌, ◌++◌, nat_eq, ltb,
  length, take, if◌then◌else◌,
}
use epics_tcl.Ca.{
  CaCall, create_channel, create_subscription, clear_subscription, clear_channel, pend_event,
  ConnectionArgs, up, down, other, EventArgs, Platform,
}
use epics_tcl.Converter
use epics_tcl.Converter.{Converter}

-- The functions that the program installs as a `CChannel::Slot`.
pub data Slot : Type 0 where
  mark_change : Slot

-- `handler` and `handler_data` are `m_pHandler` and `m_pHandlerData`, NULL as `none`; the data is
-- the address of a command object. `m_updateEventId` is `none` until it is first written.
pub record Channel : Type 0 where
  pub name : String
  pub connected : Bool
  pub chid : ℕ
  pub update_handler_established : Bool
  pub connection_handler_established : Bool
  pub value : String
  pub vector_value : List String
  pub last_update_time : ℕ
  pub converter : Option Converter
  pub handler : Option Slot
  pub handler_data : Option ℕ
  pub update_event_id : Option ℕ

-- The constructor.
unfoldable pub new : String → Channel
new name = record {
  name = name;
  connected = false;
  chid = 0;
  update_handler_established = false;
  connection_handler_established = false;
  value = "";
  vector_value = [];
  last_update_time = 0;
  converter = none;
  handler = none;
  handler_data = none;
  update_event_id = none;
}

-- The destructor up to its wait: the channel while events run down, and the calls. Afterwards the
-- converter is deleted and the object is gone.
unfoldable pub destroy : Channel → Channel × List CaCall
destroy c = (
  record c { converter = none },
  (if c.connected || c.update_handler_established
        then clear_subscription c.update_event_id ∷ []
        else [])
      ++ clear_channel c.chid ∷ pend_event 100 ∷ [],
)

unfoldable pub get_name : Channel → String
get_name c = c.name

unfoldable pub is_connected : Channel → Bool
is_connected c = c.connected

-- `id` is what `ca_create_channel` writes to `m_nChannel`.
unfoldable pub connect : ℕ → Channel → Channel × List CaCall
connect id c =
    if c.connection_handler_established
    then (record c { connection_handler_established = true }, [])
    else (record c { chid = id; connection_handler_established = true }, create_channel c.name ∷ [])

unfoldable pub get_last_update : Channel → ℕ
get_last_update c = c.last_update_time

unfoldable pub get_value : Channel → String
get_value c = c.value

unfoldable pub get_allowed_values : Channel → List String
unfolding Converter.allowed_values
get_allowed_values c = elim c.converter [ none ↦ [] | some k ↦ Converter.allowed_values k ]

-- A member that throws a `const char*`.
pub data Result {ℓ} (A : Type ℓ) : Type ℓ where
  ok : A → Result A
  throw : String → Result A

-- `size`; the first argument is what `ca_element_count` answers.
unfoldable pub size : ℕ → Channel → Result ℕ
size element_count c = if c.connected then ok element_count else throw "Channel not connected"

-- `getVector(max)`. Both branches of the source's test take the size of the whole vector.
unfoldable pub get_vector : ℕ → Channel → Result (List String)
get_vector max c =
    if c.connected
    then (let elements =
          (if nat_eq max 0 || ltb (length c.vector_value) max
            then length c.vector_value
            else length c.vector_value) in
        ok (take elements c.vector_value))
    else throw "Channel not connected"

unfoldable pub set_slot : Option Slot → Option ℕ → Channel → Channel
set_slot handler d c = record c { handler = handler; handler_data = d }

unfoldable pub do_events : ℕ → List CaCall
do_events milliseconds = pend_event milliseconds ∷ []

-- The first half of the branch for CA_OP_CONN_UP: a converter, unless there is one.
unfoldable pub with_converter : ConnectionArgs → Channel → Channel
with_converter args c = elim c.converter [
  | none ↦ record c { connected = true; converter = some (Converter.converter args.field_type) }
  | some k ↦ record c { connected = true }
]

-- The second half: a subscription, unless there is one.
unfoldable pub subscribe : ConnectionArgs → Channel → Channel × List CaCall
subscribe args c = if c.update_handler_established then (c, []) else elim c.converter [
  | none ↦ (c, [])
  | some k ↦ (
    record c { update_handler_established = true; update_event_id = some args.event_id },
    create_subscription (Converter.request_type k) args.chid ∷ [],
  )
]

unfoldable pub state_handler : ConnectionArgs → Channel → Channel × List CaCall
unfolding with_converter subscribe
state_handler args c = elim args.op [
  | up ↦ subscribe args (with_converter args c)
  | down ↦ (
    record c { connected = false; update_handler_established = false; converter = none },
    clear_subscription c.update_event_id ∷ [],
  )
  | other ↦ (c, [])
]

-- `Update` up to the slot: the time, the value and the vector, if there is a converter.
unfoldable pub refresh : Platform → ℕ → EventArgs → Channel → Channel
refresh p now args c = elim c.converter [
  | none ↦ c
  | some k ↦
      let (k', value) = Converter.call p k args in
      let (k'', vector) = Converter.get_vector p k' args in
      record c {
        last_update_time = now;
        value = value;
        vector_value = vector;
        converter = some k'';
      }
]

-- `Update`: the channel, and the slot that is fired with its data, if one is set.
unfoldable pub update : Platform → ℕ → EventArgs → Channel → Channel × Option (Slot × Option ℕ)
unfolding refresh
update p now args c =
    (refresh p now args c, elim c.handler [ none ↦ none | some slot ↦ some (slot, c.handler_data) ])

unfoldable pub update_handler :
    Platform → ℕ → EventArgs → Channel → Channel × Option (Slot × Option ℕ)
unfolding update
update_handler p now args c = if args.normal then update p now args c else (c, none)
