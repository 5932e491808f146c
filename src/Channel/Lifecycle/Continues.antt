-- ===== src/Channel/Lifecycle/Continues.antt =====
-- One channel from a moment of its life to a later one, and what the calls in between count for.
use mathlib.Core.List.{append-nil}
use epics_tcl.Prelude.{ℕ, ◌+◌, ◌≡◌, refl, Option, List, [], ◌∷◌, ◌++◌, arith, All}
use epics_tcl.Ca.{CaCall, clear_channel, ConnectionArgs, EventArgs, Platform}
use epics_tcl.Channel.{Channel, Slot, connect, set_slot, state_handler, update_handler}
use epics_tcl.Channel.Lifecycle.{
  Alternates, Life, connects, changes, updates, hooks, makes, clears, creates, total, total-append,
  IsDeterminate, one_if,
}
use epics_tcl.Channel.Lifecycle.Kept.{Life-Consistent}

-- A channel given back.
abbrev pub releases : CaCall → ℕ
releases (clear_channel id) = 1
releases _ = 0

-- The channel lives on in a later state, by the calls.
pub record Continues (p : Platform) (ch ch' : Channel) (calls : List CaCall) : Type 0 where
  pub lives : (log : List CaCall) → Life p ch log → Life p ch' (log ++ calls)
  pub kept : total releases calls ≡ 0

All-right {ℓ} : {A : Type ℓ} (P : A → Type ℓ) (xs ys : List A) → All P (xs ++ ys) → All P ys
All-right P [] ys h = h
All-right P (x ∷ xs) ys h = All-right P xs ys h.1

-- What the calls count for.
module _ {p : Platform} {ch ch' : Channel} {calls : List CaCall} (on : Continues p ch ch' calls)
    {log : List CaCall} (l : Life p ch log) where
  pub Continues-subscriptions :
      total makes calls + one_if ch.connected ≡ total clears calls + one_if ch'.connected
  Continues-subscriptions =
      let (before, after) : (total makes log ≡ total clears log + one_if ch.connected)
          × (total makes (log ++ calls) ≡ total clears (log ++ calls) + one_if ch'.connected) =
        ((Life-Consistent l).balanced, (Life-Consistent (on.lives log l)).balanced) in
      omega (arith, before, after, total-append makes log calls, total-append clears log calls)

  pub Continues-creates :
      total creates calls + one_if ch.connection_handler_established
      ≡ one_if ch'.connection_handler_established
  Continues-creates =
      let (before, after) : (total creates log ≡ one_if ch.connection_handler_established)
          × (total creates (log ++ calls) ≡ one_if ch'.connection_handler_established) =
        ((Life-Consistent l).created, (Life-Consistent (on.lives log l)).created) in
      omega (arith, before, after, total-append creates log calls)

  pub Continues-IsDeterminate : All IsDeterminate calls
  Continues-IsDeterminate =
      All-right IsDeterminate log calls (Life-Consistent (on.lives log l)).determinate

pub Continues-refl : (p : Platform) (c : Channel) → Continues p c c []
Continues-refl p c = record { lives = λ log l. rw append-nil l; kept = refl }

pub connect-Continues :
    (p : Platform) (id : ℕ) (c : Channel) → Continues p c (connect id c).0 (connect id c).1
unfolding connect
connect-Continues p id c = record { lives = λ log l. connects l id; kept = ground arith }

pub set_slot-Continues :
    (p : Platform) (h : Option Slot) (d : Option ℕ) (c : Channel)
    → Continues p c (set_slot h d c) []
unfolding set_slot
set_slot-Continues p h d c = record { lives = λ log l. rw append-nil (hooks l h d); kept = refl }

pub update_handler-Continues :
    (p : Platform) (now : ℕ) (args : EventArgs) (c : Channel)
    → Continues p c (update_handler p now args c).0 []
unfolding update_handler
update_handler-Continues p now args c = record {
  lives = λ log l. rw append-nil (updates l now args);
  kept = refl;
}

pub state_handler-Continues :
    (p : Platform) (args : ConnectionArgs) (c : Channel)
    → Alternates args.op c
    → Continues p c (state_handler args c).0 (state_handler args c).1
unfolding state_handler
state_handler-Continues p args c a = record {
  lives = λ log l. changes l args a;
  kept = ground arith;
}
