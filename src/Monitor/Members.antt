-- ===== src/Monitor/Members.antt =====
-- The members of CChannel that hold the monitor from their first statement to their last, one access
-- of the channel after the other. Their opening `CCriticalRegion` is the step that enters them.
use epics_tcl.Prelude.{
  nat_eq, ◌||◌, ltb, length, take, ℕ, String, Bool, true, false, Option, none, some, List, [], ◌∷◌,
  ◌++◌, if◌then◌else◌,
}
use epics_tcl.Prelude.Int.{ℤ}
use epics_tcl.Ca.{
  CaCall, create_channel, create_subscription, clear_subscription, put_string, put_int, put_double,
  flush_io, ConnectionArgs, EventArgs, Platform, up, down, other,
}
use epics_tcl.Converter
use epics_tcl.Channel
use epics_tcl.Channel.{Channel, Slot, Result, ok, throw}
use epics_tcl.Channel.Put.{assign_string, assign_int, assign_double}
use epics_tcl.Monitor.{Script, over, access, enter, leave}

-- What a reader hands out.
pub data Answer : Type 0 where
  text : String → Answer
  flag : Bool → Answer
  time : ℕ → Answer
  texts : Result (List String) → Answer

-- The channel, with what its members have done so far: the calls of channel access, the slots fired
-- with their data, and the answers of the readers.
pub record Shared : Type 0 where
  pub channel : Channel
  pub calls : List CaCall
  pub fired : List (Slot × Option ℕ)
  pub answers : List Answer

-- `update` says besides whether the slot's function reads the value back, as UpdateLinkedVariable does
-- on the interpreter's thread.
pub data Member : Type 0 where
  get_name is_connected get_last_update get_value : Member
  get_vector : ℕ → Member
  connect : ℕ → Member
  set_slot : Option Slot → Option ℕ → Member
  put_text : String → Member
  put_number : ℤ → Member
  put_real : ℕ → Member
  state_handler : ConnectionArgs → Member
  update : ℕ → EventArgs → Bool → Member

abbrev change : (Channel → Channel) → Shared → Shared
change f s = record s { channel = f s.channel }

abbrev call : (Channel → CaCall) → Shared → Shared
call f s = record s { calls = s.calls ++ f s.channel ∷ [] }

abbrev answer : (Channel → Answer) → Shared → Shared
answer f s = record s { answers = s.answers ++ f s.channel ∷ [] }

-- One statement after the other; a test that goes on in one of two ways.
abbrev next : (Shared → Shared) → Script Shared → Script Shared
next f t = access f (λ s. t)

abbrev test : (Channel → Bool) → Script Shared → Script Shared → Script Shared
test b t u = access (λ s. s) (λ s. if b s.channel then t else u)

abbrev close : Script Shared
close = leave over

-- `getValue`, its critical region included.
abbrev read_again : Script Shared → Script Shared
read_again t = enter (next (answer (λ c. text c.value)) (leave t))

-- The size of the vector is read again in either branch.
abbrev copy_script : Script Shared
copy_script =
    access (λ s. s)
      (λ s.
        let elements = length s.channel.vector_value in
        next (answer (λ c. texts (ok (take elements c.vector_value)))) close)

unfoldable pub get_vector_script : ℕ → Script Shared
get_vector_script max =
    test (λ c. c.connected)
      (test (λ c. nat_eq max 0 || ltb (length c.vector_value) max) copy_script copy_script)
      (next (answer (λ c. texts (throw "Channel not connected"))) close)

unfoldable pub connect_script : ℕ → Script Shared
connect_script id =
    let established =
      next (change (λ c. record c { connection_handler_established = true })) close in
    test (λ c. c.connection_handler_established) established
      (next (λ s. change (λ c. record c { chid = id }) (call (λ c. create_channel c.name) s))
        established)

unfoldable pub set_slot_script : Option Slot → Option ℕ → Script Shared
set_slot_script h d =
    next (change (λ c. record c { handler = h }))
      (next (change (λ c. record c { handler_data = d })) close)

unfoldable pub put_script : (Channel → CaCall) → Script Shared
put_script f = test (λ c. c.connected) (next (call f) (next (call (λ c. flush_io)) close)) close

-- The second half of the branch for CA_OP_CONN_UP.
unfoldable pub subscribe_script : ConnectionArgs → Script Shared
subscribe_script args =
    test (λ c. c.update_handler_established) close
      (next
        (λ s. elim s.channel.converter [
          | none ↦ s
          | some k ↦
              change (λ c. record c { update_event_id = some args.event_id })
                (call (λ c. create_subscription (Converter.request_type k) args.chid) s)
        ])
        (next (change (λ c. record c { update_handler_established = true })) close))

unfoldable pub state_handler_script : ConnectionArgs → Script Shared
unfolding subscribe_script
state_handler_script args = elim args.op [
  | up ↦ next (change (λ c. record c { connected = true })) (
      access (λ s. s)
        (λ s. elim s.channel.converter [
          | none ↦
              next
                (change (λ c. record c { converter = some (Converter.converter args.field_type) }))
                (subscribe_script args)
          | some k ↦ subscribe_script args
        ]))
  | down ↦ next (change (λ c. record c { connected = false })) (
      next (call (λ c. clear_subscription c.update_event_id)) (
        next (change (λ c. record c { update_handler_established = false }))
          (next (change (λ c. record c { converter = none })) close)))
  | other ↦ close
]

-- The slot's call, with the monitor held.
unfoldable pub fire_script : Bool → Script Shared
fire_script reads =
    access (λ s. s)
      (λ s. elim s.channel.handler [
        | none ↦ close
        | some slot ↦
            next (λ s. record s { fired = s.fired ++ (slot, s.channel.handler_data) ∷ [] })
              (if reads then read_again close else close)
      ])

-- What is assigned from a conversion, which may change the converter too.
abbrev converted : (Converter.Converter → Channel → Channel) → Shared → Shared
converted f = change (λ c. elim c.converter [ none ↦ c | some k ↦ f k c ])

-- The three assignments of `Update`.
abbrev pub set_time : ℕ → Shared → Shared
set_time now = change (λ c. record c { last_update_time = now })

abbrev pub set_value : Platform → EventArgs → Shared → Shared
set_value p args = converted (λ k c.
    let (k', value) = Converter.call p k args in record c { value = value; converter = some k' })

abbrev pub set_vector : Platform → EventArgs → Shared → Shared
set_vector p args = converted (λ k c.
    let (k', vector) = Converter.get_vector p k args in
    record c { vector_value = vector; converter = some k' })

unfoldable pub update_script : Platform → ℕ → EventArgs → Bool → Script Shared
unfolding fire_script
update_script p now args reads =
    access (λ s. s)
      (λ s. elim s.channel.converter [
        | none ↦ fire_script reads
        | some k ↦
            next (set_time now)
              (next (set_value p args) (next (set_vector p args) (fire_script reads)))
      ])

unfoldable pub script : Platform → Member → Script Shared
unfolding get_vector_script connect_script set_slot_script put_script state_handler_script
    update_script
script p get_name = next (answer (λ c. text c.name)) close
script p is_connected = next (answer (λ c. flag c.connected)) close
script p get_last_update = next (answer (λ c. time c.last_update_time)) close
script p get_value = next (answer (λ c. text c.value)) close
script p (get_vector max) = get_vector_script max
script p (connect id) = connect_script id
script p (set_slot h d) = set_slot_script h d
script p (put_text s) = put_script (λ c. put_string c.chid s)
script p (put_number i) = put_script (λ c. put_int c.chid i)
script p (put_real d) = put_script (λ c. put_double c.chid d)
script p (state_handler args) = state_handler_script args
script p (update now args reads) = update_script p now args reads

-- The same members as the model of CChannel has them, each one step.
abbrev pub apply : Platform → Member → Shared → Shared
apply p get_name s = answer (λ c. text (Channel.get_name c)) s
apply p is_connected s = answer (λ c. flag (Channel.is_connected c)) s
apply p get_last_update s = answer (λ c. time (Channel.get_last_update c)) s
apply p get_value s = answer (λ c. text (Channel.get_value c)) s
apply p (get_vector max) s = answer (λ c. texts (Channel.get_vector max c)) s
apply p (connect id) s =
    let (c, calls) = Channel.connect id s.channel in
    record s { channel = c; calls = s.calls ++ calls }
apply p (set_slot h d) s = change (Channel.set_slot h d) s
apply p (put_text t) s = record s { calls = s.calls ++ assign_string t s.channel }
apply p (put_number i) s = record s { calls = s.calls ++ assign_int i s.channel }
apply p (put_real d) s = record s { calls = s.calls ++ assign_double d s.channel }
apply p (state_handler args) s =
    let (c, calls) = Channel.state_handler args s.channel in
    record s { channel = c; calls = s.calls ++ calls }
apply p (update now args reads) s =
    let (c, slot) = Channel.update p now args s.channel in
    elim slot [
      | none ↦ record s { channel = c }
      | some f ↦ record s {
        channel = c;
        fired = s.fired ++ f ∷ [];
        answers = s.answers ++ (if reads then text (Channel.get_value c) ∷ [] else []);
      }
    ]
