-- ===== src/Monitor/Closing.antt =====
-- Each member accesses the channel only while it holds the monitor, and ends where it has given it
-- back.
use epics_tcl.Prelude.{ℕ, ◌≡◌, refl, Bool, true, false, Option-cases, inl, inr, arith}
use epics_tcl.Ca.{
  put_string, put_int, put_double, ConnectionArgs, ConnOp, CaCall, EventArgs, Platform, up, down,
  other,
}
use epics_tcl.Channel.{Channel}
use epics_tcl.Monitor.{Closes}
use epics_tcl.Monitor.Members.{
  Member, get_name, is_connected, get_last_update, get_value, get_vector, get_vector_script,
  connect, set_slot, put_text, put_number, put_real, state_handler, update, connect_script,
  set_slot_script, put_script, subscribe_script, state_handler_script, fire_script, update_script,
  script,
}

fire_script-Closes : (reads : Bool) → Closes 1 (fire_script reads)
unfolding fire_script
fire_script-Closes true s = ground arith
fire_script-Closes false s = ground arith

get_vector_script-Closes : (max : ℕ) → Closes 1 (get_vector_script max)
unfolding get_vector_script
get_vector_script-Closes max s = ground arith

subscribe_script-Closes : (args : ConnectionArgs) → Closes 1 (subscribe_script args)
unfolding subscribe_script
subscribe_script-Closes args s = ground arith

put_script-Closes : (f : Channel → CaCall) → Closes 1 (put_script f)
unfolding put_script
put_script-Closes f s = ground arith

connect_script-Closes : (id : ℕ) → Closes 1 (connect_script id)
unfolding connect_script
connect_script-Closes id s = ground arith

state_handler_script-Closes :
    (args : ConnectionArgs) (o : ConnOp) → args.op ≡ o → Closes 1 (state_handler_script args)
unfolding state_handler_script
state_handler_script-Closes args up e = rw e (λ s s'. elim (Option-cases s'.channel.converter) [
  | inl lacking ↦ rw lacking (λ s2. subscribe_script-Closes args)
  | inr (k, there) ↦ rw there (subscribe_script-Closes args)
])
state_handler_script-Closes args down e = rw e (λ s s2 s3 s4. tt)
state_handler_script-Closes args other e = rw e tt

update_script-Closes :
    (p : Platform) (now : ℕ) (args : EventArgs) (reads : Bool)
    → Closes 1 (update_script p now args reads)
unfolding update_script
update_script-Closes p now args reads s = elim (Option-cases s.channel.converter) [
  | inl lacking ↦ rw lacking (fire_script-Closes reads)
  | inr (k, there) ↦ rw there (λ s2 s3 s4. fire_script-Closes reads)
]

pub script-Closes : (p : Platform) (a : Member) → Closes 1 (script p a)
unfolding script set_slot_script
script-Closes p get_name = λ s. tt
script-Closes p is_connected = λ s. tt
script-Closes p get_last_update = λ s. tt
script-Closes p get_value = λ s. tt
script-Closes p (get_vector max) = get_vector_script-Closes max
script-Closes p (connect id) = connect_script-Closes id
script-Closes p (set_slot h d) = λ s s2. tt
script-Closes p (put_text t) = put_script-Closes (λ c. put_string c.chid t)
script-Closes p (put_number i) = put_script-Closes (λ c. put_int c.chid i)
script-Closes p (put_real d) = put_script-Closes (λ c. put_double c.chid d)
script-Closes p (state_handler args) = state_handler_script-Closes args args.op refl
script-Closes p (update now args reads) = update_script-Closes p now args reads
