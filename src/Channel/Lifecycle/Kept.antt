-- ===== src/Channel/Lifecycle/Kept.antt =====
-- A channel stays consistent through its life.
use epics_tcl.Prelude.{
  ℕ, ◌≡◌, refl, String, true, false, Option, List, [], ◌∷◌, ◌++◌, arith, All-append,
}
use mathlib.Core.List.{append-nil}
use epics_tcl.Ca.{
  CaCall, clear_subscription, ConnectionArgs, ConnOp, up, down, other, EventArgs, Platform,
}
use epics_tcl.Channel.{
  Channel, Slot, new, connect, with_converter, subscribe, state_handler, update_handler, set_slot,
}
use epics_tcl.Channel.Lifecycle.{
  Alternates, Put, Life, born, connects, changes, updates, puts, hooks, put_calls, makes, clears,
  creates, total-append, IsDeterminate, Consistent, put_calls_neutral,
}

connect-Consistent :
    (id : ℕ) (c : Channel) (log : List CaCall)
    → Consistent c log
    → Consistent (connect id c).0 (log ++ (connect id c).1)
unfolding connect
connect-Consistent id c log h = record {
  subscribed = ground arith;
  converted = ground arith;
  identified = λ e. ground (arith, h.identified);
  balanced =
      ground
        (arith, total-append makes log (connect id c).1, total-append clears log (connect id c).1);
  created = ground (arith, total-append creates log (connect id c).1);
  determinate = All-append IsDeterminate log (connect id c).1 h.determinate (ground arith);
}

module _ (args : ConnectionArgs) (c : Channel) (log : List CaCall) where
  subscribe_first :
      c.connected ≡ false
      → Consistent c log
      → Consistent
          (subscribe args (with_converter args c)).0
          (log ++ (subscribe args (with_converter args c)).1)
  unfolding subscribe with_converter
  subscribe_first a h =
      let calls = (subscribe args (with_converter args c)).1 in
      record {
        subscribed = ground arith;
        converted = ground arith;
        identified = λ e. ground arith;
        balanced = ground (arith, total-append makes log calls, total-append clears log calls);
        created = ground (arith, total-append creates log calls);
        determinate = All-append IsDeterminate log calls h.determinate (ground arith);
      }

  unsubscribe_last :
      args.op ≡ down
      → c.connected ≡ true
      → Consistent c log
      → Consistent (state_handler args c).0 (log ++ (state_handler args c).1)
  unfolding state_handler
  unsubscribe_last e a h =
      rw (e, state_handler)
        (record {
          subscribed = refl;
          converted = refl;
          identified = λ e. ground arith;
          balanced = ground (
            arith,
            total-append makes log (clear_subscription c.update_event_id ∷ []),
            total-append clears log (clear_subscription c.update_event_id ∷ []),
          );
          created =
              ground (arith, total-append creates log (clear_subscription c.update_event_id ∷ []));
          determinate =
              All-append IsDeterminate log (clear_subscription c.update_event_id ∷ []) h.determinate
                (ground (arith, h.identified a));
        })

append-nil-Consistent :
    {c : Channel} {log : List CaCall} → Consistent c log → Consistent c (log ++ [])
append-nil-Consistent h = rw append-nil h

state_handler-Consistent :
    (args : ConnectionArgs) (c : Channel) (log : List CaCall) (o : ConnOp)
    → args.op ≡ o
    → Alternates o c
    → Consistent c log
    → Consistent (state_handler args c).0 (log ++ (state_handler args c).1)
unfolding state_handler
state_handler-Consistent args c log up e a h =
    rw (e, state_handler) (subscribe_first args c log a h)
state_handler-Consistent args c log down e a h = unsubscribe_last args c log e a h
state_handler-Consistent args c log other e a h = rw (e, state_handler) (append-nil-Consistent h)

update_handler-Consistent :
    (p : Platform) (now : ℕ) (args : EventArgs) {c : Channel} {log : List CaCall}
    → Consistent c log
    → Consistent (update_handler p now args c).0 log
unfolding update_handler
update_handler-Consistent p now args {c} {log} h = record {
  subscribed = ground arith;
  converted = ground arith;
  identified = λ e. ground (arith, h.identified);
  balanced = ground arith;
  created = ground arith;
  determinate = h.determinate;
}

puts-Consistent :
    (p : Platform) (x : Put) {c : Channel} {log : List CaCall}
    → Consistent c log
    → Consistent c (log ++ put_calls p x c)
puts-Consistent p x {c} {log} h =
    let calls = put_calls p x c in
    let (m, k, n, d) = put_calls_neutral p x c in
    record {
      subscribed = h.subscribed;
      converted = h.converted;
      identified = h.identified;
      balanced =
          omega
            (arith, h.balanced, m, k, total-append makes log calls, total-append clears log calls);
      created = omega (arith, h.created, n, total-append creates log calls);
      determinate = All-append IsDeterminate log calls h.determinate d;
    }

set_slot-Consistent :
    (handler : Option Slot) (d : Option ℕ) {c : Channel} {log : List CaCall}
    → Consistent c log
    → Consistent (set_slot handler d c) log
unfolding set_slot
set_slot-Consistent handler d h = record {
  subscribed = h.subscribed;
  converted = h.converted;
  identified = h.identified;
  balanced = h.balanced;
  created = h.created;
  determinate = h.determinate;
}

new-Consistent : (name : String) → Consistent (new name) []
unfolding new
new-Consistent name = record {
  subscribed = refl;
  converted = refl;
  identified = λ e. ground arith;
  balanced = refl;
  created = refl;
  determinate = tt;
}

-- At every moment of a channel's life, in which it is reported up and down by turns: it has a subscription and a converter exactly while it is
-- connected, and knows its event id then; it has made one subscription more than it has cleared if
-- it is connected, and else as many; it has created its channel at most once, and exactly if
-- `Connect` was called; and it never cleared an event id that was not written.
pub Life-Consistent :
    {p : Platform} {c : Channel} {log : List CaCall} → Life p c log → Consistent c log
Life-Consistent (born name) = new-Consistent name
Life-Consistent (connects l id) = connect-Consistent id _ _ (Life-Consistent l)
Life-Consistent (changes l args a) =
    state_handler-Consistent args _ _ args.op refl a (Life-Consistent l)
Life-Consistent {p} (updates l now args) = update_handler-Consistent p now args (Life-Consistent l)
Life-Consistent {p} (puts l x) = puts-Consistent p x (Life-Consistent l)
Life-Consistent (hooks l handler d) = set_slot-Consistent handler d (Life-Consistent l)
