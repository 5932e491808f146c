-- ===== src/World.antt =====
-- The state that the commands share: the known channels (`m_channelInfo` of CTCLEpicsCommand.cpp),
-- the live command objects by their addresses, the Tcl event queue, and the calls made of channel
-- access and of Tcl so far. An access through the address of an object that is gone is `dangling`.
use epics_tcl.Prelude.{ℕ, zero, suc, String, Bool, true, false, Option, none, some, List, ◌++◌}
use epics_tcl.Prelude.Int.{ℤ, pos, negsuc}
use epics_tcl.Ca.{CaCall}
use epics_tcl.Tcl.{TclCall}
use epics_tcl.Map.{Map, lookup, insert, string_eq, address_eq}
use epics_tcl.Command.{Command}

-- `CTCLEpicsCommand::RefCountedChannel`.
pub record RefCountedChannel : Type 0 where
  pub refcount : ℤ
  pub command : ℕ

-- `CTCLChannelCommand::ChangeEvent`: the command that it is for, and that command's name.
pub record ChangeEvent : Type 0 where
  pub changed_channel : ℕ
  pub channel_name : String

pub record World : Type 0 where
  pub known_channels : Map String RefCountedChannel
  pub commands : Map ℕ Command
  pub queue : List ChangeEvent
  pub ca_calls : List CaCall
  pub tcl_calls : List TclCall

pub data Run {ℓ} (A : Type ℓ) : Type ℓ where
  done : A → Run A
  dangling : Run A

infixl 5 ◌>>=◌
abbrev pub ◌>>=◌ {ℓ κ} : {A : Type ℓ} {B : Type κ} → Run A → (A → Run B) → Run B
done a >>= f = f a
dangling >>= f = dangling

abbrev pub found {ℓ} : {A : Type ℓ} → Option A → Run A
found none = dangling
found (some a) = done a

-- The object at an address.
abbrev pub at : World → ℕ → Option Command
at w self = lookup self w.commands

abbrev pub store : ℕ → Command → World → World
store self c w = record w { commands = insert self c w.commands }

abbrev pub calls_ca : List CaCall → World → World
calls_ca calls w = record w { ca_calls = w.ca_calls ++ calls }

abbrev pub calls_tcl : List TclCall → World → World
calls_tcl calls w = record w { tcl_calls = w.tcl_calls ++ calls }

-- `s_refcount++` and `s_refcount--`, of a count that stays within `int`.
unfoldable pub increment : ℤ → ℤ
increment (pos n) = pos (suc n)
increment (negsuc zero) = pos 0
increment (negsuc (suc n)) = negsuc n

unfoldable pub decrement : ℤ → ℤ
decrement (pos zero) = negsuc 0
decrement (pos (suc n)) = pos n
decrement (negsuc n) = negsuc (suc n)

abbrev pub is_zero : ℤ → Bool
is_zero (pos zero) = true
is_zero (pos (suc n)) = false
is_zero (negsuc n) = false
