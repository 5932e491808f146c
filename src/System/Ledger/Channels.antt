-- ===== src/System/Ledger/Channels.antt =====
-- Calls of channel access that count for nothing, and the ways in which a channel lives on.
use epics_tcl.Prelude.{
  ◌||◌, ◌==◌, ltb, nat_eq, length, Bool-cases, inl, inr, ℕ, ◌≡◌, refl, String, Bool, Option, some,
  none, List, [], arith, if◌then◌else◌,
}
use epics_tcl.Ca.{CaCall, ConnectionArgs, EventArgs, Platform}
use epics_tcl.Tcl.{Tcl}
use epics_tcl.Channel.{Channel, Slot, set_slot, state_handler, update_handler}
use epics_tcl.Channel.Lifecycle.{
  Alternates, Put, strings, ints, doubles, put_calls, total, put_calls_neutral,
}
use epics_tcl.Channel.Lifecycle.Continues.{
  releases, Continues-refl, set_slot-Continues, update_handler-Continues, state_handler-Continues,
}
use epics_tcl.Channel.Put.{
  assign_strings, assign_ints, assign_doubles, assign_string, assign_int, assign_double,
}
use epics_tcl.Map.{address_eq, string_eq}
use epics_tcl.Command.{Command, word}
use epics_tcl.Command.Set
use epics_tcl.Command.Set.{finish}
use epics_tcl.Variable
use epics_tcl.System.Ledger.Moves.{LivesOn, IsNeutral}

releases-put_calls : (p : Platform) (x : Put) (c : Channel) → total releases (put_calls p x c) ≡ 0
unfolding put_calls assign_string assign_int assign_double assign_strings assign_ints assign_doubles
releases-put_calls p (Put.string s) c = ground arith
releases-put_calls p (Put.int i) c = ground arith
releases-put_calls p (Put.double d) c = ground arith
releases-put_calls p (strings e m xs) c = ground arith
releases-put_calls p (ints e m xs) c = ground arith
releases-put_calls p (doubles e m xs) c = ground arith

put_calls-IsNeutral : (p : Platform) (x : Put) (c : Channel) → IsNeutral (put_calls p x c)
put_calls-IsNeutral p x c =
    let (m, k, n, d) = put_calls_neutral p x c in
    record {
      makes_none = m;
      clears_none = k;
      creates_none = n;
      releases_none = releases-put_calls p x c;
      determinate = d;
    }

empty-IsNeutral : IsNeutral []
empty-IsNeutral = record {
  makes_none = refl;
  clears_none = refl;
  creates_none = refl;
  releases_none = refl;
  determinate = tt;
}

finish-IsNeutral {ℓ} :
    {A : Type ℓ} (o : Option (List A)) (put : List A → List CaCall) (objv : List String)
    (datatype : String)
    → ((xs : List A) → IsNeutral (put xs))
    → IsNeutral (finish o put objv datatype).1
unfolding finish
finish-IsNeutral none put objv datatype h = empty-IsNeutral
finish-IsNeutral (some xs) put objv datatype h = h xs

module _ (p : Platform) (t : Tcl) (n : ℕ) (m : Bool) (c : Command) (objv : List String) where
  pub set-IsNeutral : IsNeutral (Set.set p t n m c objv).1
  unfolding Set.set put_calls
  set-IsNeutral =
      let datatype = (if nat_eq (length objv) 4 then word objv 3 else "string") in
      elim (Bool-cases (ltb (length objv) 3 || ltb 4 (length objv))) [
        | inl wrong ↦ rw wrong empty-IsNeutral
        | inr right ↦ rw right (elim (Bool-cases (datatype == "string")) [
          | inl yes_string ↦ rw yes_string (
              finish-IsNeutral (Set.convert_list t some (word objv 2)) _ objv datatype
                (λ xs. put_calls-IsNeutral p (strings n m xs) c.channel))
          | inr no_string ↦ rw no_string (elim (Bool-cases (datatype == "int")) [
            | inl yes_int ↦ rw yes_int (
                finish-IsNeutral (Set.convert_list t t.to_int (word objv 2)) _ objv datatype
                  (λ xs. put_calls-IsNeutral p (ints n m xs) c.channel))
            | inr no_int ↦ rw no_int (elim (Bool-cases (datatype == "real")) [
              | inl yes_real ↦ rw yes_real (
                  finish-IsNeutral (Set.convert_list t t.to_double (word objv 2)) _ objv datatype
                    (λ xs. put_calls-IsNeutral p (doubles n m xs) c.channel))
              | inr no_real ↦ rw no_real empty-IsNeutral
            ])
          ])
        ])
      ]

pub on_write-IsNeutral :
    (p : Platform) (contents : String) (c : Channel) → IsNeutral (Variable.on_write contents c)
unfolding Variable.on_write put_calls
on_write-IsNeutral p contents c = put_calls-IsNeutral p (Put.string contents) c

-- The ways in which a channel lives on.
pub set_slot-LivesOn :
    (p : Platform) (h : Option Slot) (d : Option ℕ) (c : Channel) → LivesOn p c (set_slot h d c) []
unfolding set_slot
set_slot-LivesOn p h d c = record { continues = set_slot-Continues p h d c; established = refl }

pub same-LivesOn : (p : Platform) (c : Channel) → LivesOn p c c []
same-LivesOn p c = record { continues = Continues-refl p c; established = refl }

pub update_handler-LivesOn :
    (p : Platform) (now : ℕ) (args : EventArgs) (c : Channel)
    → LivesOn p c (update_handler p now args c).0 []
unfolding update_handler
update_handler-LivesOn p now args c = record {
  continues = update_handler-Continues p now args c;
  established = ground arith;
}

pub state_handler-LivesOn :
    (p : Platform) (args : ConnectionArgs) (c : Channel)
    → Alternates args.op c
    → LivesOn p c (state_handler args c).0 (state_handler args c).1
unfolding state_handler
state_handler-LivesOn p args c a = record {
  continues = state_handler-Continues p args c a;
  established = ground arith;
}
