-- ===== src/System/Ledger.antt =====
-- The calls of channel access of the whole program against its live channels, over worlds that are
-- reached while channel access reports each channel up and down by turns.
pub mod Moves
pub mod Channels
pub mod Operations
pub mod Steps
use epics_tcl.Prelude.{ℕ, ◌+◌, ◌≡◌, true, some, List, All}
use epics_tcl.Ca.{CaCall, clear_channel, Platform}
use epics_tcl.Tcl.{Tcl}
use epics_tcl.Channel.Lifecycle.{
  Alternates, Life, makes, clears, creates, total, IsDeterminate, one_if,
}
use epics_tcl.Channel.Lifecycle.Continues.{releases}
use epics_tcl.Map.{Map, lookup, address_eq}
use epics_tcl.Map.Sums.{IsDistinct, sum}
use epics_tcl.Command.{Command}
use epics_tcl.World.{World, at}
use epics_tcl.System.{empty, Step, connects, Reach, start, next}

-- Channel access keeps its order in a step: CONN_UP comes to a channel that is down, CONN_DOWN to
-- one that is up.
abbrev pub IsOrderly : {p : Platform} {t : Tcl} {w w' : World} → Step p t w w' → Type 0
IsOrderly {w = w} (connects self args e) =
    (c : Command) → at w self ≡ some c → Alternates args.op c.channel
IsOrderly _ = Unit

pub data OrderlyReach (p : Platform) (t : Tcl) : World → Type 0 where
  begin : OrderlyReach p t empty
  then_step :
      {w w' : World} → OrderlyReach p t w → (s : Step p t w w') → IsOrderly s → OrderlyReach p t w'

pub OrderlyReach-Reach : {p : Platform} {t : Tcl} {w : World} → OrderlyReach p t w → Reach p t w
OrderlyReach-Reach begin = start
OrderlyReach-Reach (then_step r s o) = next (OrderlyReach-Reach r) s

-- 1 for a command whose channel is connected.
abbrev pub is_up : Command → ℕ
is_up c = one_if c.channel.connected

abbrev pub each : Command → ℕ
each c = 1

-- A live channel: it has a history of its own, in which `Connect` was called.
pub record IsLived (p : Platform) (c : Command) : Type 0 where
  pub log : List CaCall
  pub life : Life p c.channel log
  pub established : c.channel.connection_handler_established ≡ true

pub record Accounted (p : Platform) (commands : Map ℕ Command) (calls : List CaCall) : Type 0 where
  pub distinct : IsDistinct commands
  pub lived : (self : ℕ) (c : Command) → lookup self commands ≡ some c → IsLived p c
  pub subscriptions : total makes calls ≡ total clears calls + sum is_up commands
  pub channels : total creates calls ≡ total releases calls + sum each commands
  pub determinate : All IsDeterminate calls
