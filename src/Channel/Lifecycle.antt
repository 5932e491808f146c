-- ===== src/Channel/Lifecycle.antt =====
-- The life of a channel, as a relation: what its owner calls and what channel access calls back, in
-- any order that channel access allows, with the calls made of it so far. Channel access calls the
-- connection handler only for a channel that was created, and reports CONN_UP and CONN_DOWN by
-- turns.
pub mod Kept
pub mod Continues
use epics_tcl.Prelude.{
  ℕ, ◌+◌, ◌≡◌, refl, String, Bool, true, false, Option, none, is_some, List, [], ◌∷◌, ◌++◌, arith,
  All, All-append, if◌then◌else◌,
}
use epics_tcl.Prelude.Int.{ℤ}
use mathlib.Core.List.{append-nil}
use epics_tcl.Ca.{
  CaCall, create_channel, create_subscription, clear_subscription, ConnectionArgs, ConnOp, up, down,
  other, EventArgs, Platform,
}
use epics_tcl.Channel.{
  Channel, Slot, new, connect, destroy, with_converter, subscribe, state_handler, update_handler,
  set_slot,
}
use epics_tcl.Channel.Put.{
  assign_strings, assign_ints, assign_doubles, assign_string, assign_int, assign_double,
}

-- CONN_UP comes to a channel that is down, CONN_DOWN to one that is up.
abbrev pub Alternates : ConnOp → Channel → Type 0
Alternates up c = c.connected ≡ false
Alternates down c = c.connected ≡ true
Alternates other c = Unit

-- The assignments that the commands use.
pub data Put : Type 0 where
  string : String → Put
  int : ℤ → Put
  double : ℕ → Put
  strings : ℕ → Bool → List String → Put
  ints : ℕ → Bool → List ℤ → Put
  doubles : ℕ → Bool → List ℕ → Put

unfoldable pub put_calls : Platform → Put → Channel → List CaCall
put_calls p (string s) c = assign_string s c
put_calls p (int i) c = assign_int i c
put_calls p (double d) c = assign_double d c
put_calls p (strings e m xs) c = assign_strings p e m xs c
put_calls p (ints e m xs) c = assign_ints e m xs c
put_calls p (doubles e m xs) c = assign_doubles e m xs c

pub data Life (p : Platform) : Channel → List CaCall → Type 0 where
  born : (name : String) → Life p (new name) []
  connects :
      {c : Channel} {log : List CaCall}
      → Life p c log
      → (id : ℕ) → Life p (connect id c).0 (log ++ (connect id c).1)
  changes :
      {c : Channel} {log : List CaCall}
      → Life p c log
      → (args : ConnectionArgs) → Alternates args.op c
      → Life p (state_handler args c).0 (log ++ (state_handler args c).1)
  updates :
      {c : Channel} {log : List CaCall}
      → Life p c log
      → (now : ℕ) (args : EventArgs) → Life p (update_handler p now args c).0 log
  puts :
      {c : Channel} {log : List CaCall}
      → Life p c log
      → (x : Put) → Life p c (log ++ put_calls p x c)
  hooks :
      {c : Channel} {log : List CaCall}
      → Life p c log
      → (handler : Option Slot) (d : Option ℕ) → Life p (set_slot handler d c) log

-- What a call counts for: a subscription made, a subscription cleared, a channel created.
abbrev pub makes : CaCall → ℕ
makes (create_subscription r id) = 1
makes _ = 0

abbrev pub clears : CaCall → ℕ
clears (clear_subscription e) = 1
clears _ = 0

abbrev pub creates : CaCall → ℕ
creates (create_channel name) = 1
creates _ = 0

abbrev pub total : (CaCall → ℕ) → List CaCall → ℕ
total f [] = 0
total f (x ∷ log) = f x + total f log

pub total-append :
    (f : CaCall → ℕ) (xs ys : List CaCall) → total f (xs ++ ys) ≡ total f xs + total f ys
total-append f [] ys = omega arith
total-append f (x ∷ xs) ys = omega (arith, total-append f xs ys)

-- A subscription is cleared by an event id that was written before.
abbrev pub IsDeterminate : CaCall → Type 0
IsDeterminate (clear_subscription none) = ⊥
IsDeterminate _ = Unit

-- 1 for true.
abbrev pub one_if : Bool → ℕ
one_if b = if b then 1 else 0

pub record Consistent (c : Channel) (log : List CaCall) : Type 0 where
  pub subscribed : c.update_handler_established ≡ c.connected
  pub converted : is_some c.converter ≡ c.connected
  pub identified : c.connected ≡ true → is_some c.update_event_id ≡ true
  pub balanced : total makes log ≡ total clears log + one_if c.connected
  pub created : total creates log ≡ one_if c.connection_handler_established
  pub determinate : All IsDeterminate log

-- The calls of an assignment count for nothing.
pub put_calls_neutral :
    (p : Platform) (x : Put) (c : Channel)
    → (total makes (put_calls p x c) ≡ 0)
      × (total clears (put_calls p x c) ≡ 0)
      × (total creates (put_calls p x c) ≡ 0)
      × All IsDeterminate (put_calls p x c)
unfolding put_calls assign_string assign_int assign_double assign_strings assign_ints assign_doubles
put_calls_neutral p (string s) c = ground arith
put_calls_neutral p (int i) c = ground arith
put_calls_neutral p (double d) c = ground arith
put_calls_neutral p (strings e m xs) c = ground arith
put_calls_neutral p (ints e m xs) c = ground arith
put_calls_neutral p (doubles e m xs) c = ground arith
