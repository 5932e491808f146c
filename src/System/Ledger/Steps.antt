-- ===== src/System/Ledger/Steps.antt =====
-- Every orderly step keeps the account.
use epics_tcl.Prelude.{ℕ, ◌+◌, ◌≡◌, refl, true, some, is_some, All}
use epics_tcl.Ca.{Platform}
use epics_tcl.Tcl.{Tcl}
use epics_tcl.Channel.Lifecycle
use epics_tcl.Channel.Lifecycle.{
  Alternates, Life, changes, updates, hooks, Put, string, strings, ints, doubles, put_calls, makes,
  clears, total, IsDeterminate, put_calls_neutral,
}
use epics_tcl.Channel.Lifecycle.Continues.{releases}
use epics_tcl.Map.{lookup, address_eq, string_eq}
use epics_tcl.Map.Sums.{sum}
use epics_tcl.Command.{Command}
use epics_tcl.World.{World, at}
use epics_tcl.Channel.Lifecycle.Kept.{Life-Consistent}
use epics_tcl.Change.Frame.{dispatch-Frame}
use epics_tcl.Change.{channel_event, connection_event}
use epics_tcl.Dispatch.{invoke, variable_write}
use epics_tcl.System.{IsSound, empty, Step, creates, invokes, updates, connects, dispatches, writes}
use epics_tcl.System.Steps.{Ends-result, live_of_done, Reach-IsSound}
use epics_tcl.System.Ledger.{
  Accounted, IsOrderly, OrderlyReach, begin, then_step, OrderlyReach-Reach, is_up, each,
}
use epics_tcl.System.Ledger.Operations.{
  AccountedWorld, Answered, epicschannel-Accounted, invoke-Accounted, connection_event-Accounted,
  variable_write-Accounted, framed, channel_event-Accounted,
}

-- An orderly step from a sound world keeps the account.
Step-Accounted :
    {p : Platform} {t : Tcl} {w w' : World} (s : Step p t w w')
    → IsOrderly s
    → IsSound w
    → AccountedWorld p w
    → AccountedWorld p w'
unfolding invoke channel_event connection_event variable_write
Step-Accounted {p} {w = w} (creates f command objv r free e) o s a =
    Ends-result (Answered p) (epicschannel-Accounted p f command objv w free a) e
Step-Accounted {p} {t} {w} (invokes n self objv r e) o s a =
    let (c, here) = live_of_done (at w self) _ e in
    Ends-result (Answered p) (invoke-Accounted p self c w here a t n objv s) e
Step-Accounted {p} {w = w} {w' = w'} (updates thread now self args e) o s a =
    let (c, here) = live_of_done (at w self) _ e in
    channel_event-Accounted p thread now self args c w w' here a e
Step-Accounted {p} {w = w} (connects self args e) o s a =
    let (c, here) = live_of_done (at w self) _ e in
    Ends-result (AccountedWorld p) (connection_event-Accounted p self c w here a args (o c here)) e
Step-Accounted {p} {w = w} {w' = w'} (dispatches e) o s a =
    framed p (dispatch-Frame w.queue w w' e) a
Step-Accounted {p} {w = w} (writes self contents e) o s a =
    let (c, here) = live_of_done (at w self) _ e in
    Ends-result (AccountedWorld p) (variable_write-Accounted p self c w here a contents) e

empty-Accounted : (p : Platform) → AccountedWorld p empty
unfolding lookup
empty-Accounted p = record {
  distinct = tt;
  lived = λ s c e. absurd (cc);
  subscriptions = refl;
  channels = refl;
  determinate = tt;
}

-- The account holds of every world that is reached in order.
pub OrderlyReach-Accounted :
    {p : Platform} {t : Tcl} {w : World} → OrderlyReach p t w → Accounted p w.commands w.ca_calls
OrderlyReach-Accounted {p} begin = empty-Accounted p
OrderlyReach-Accounted (then_step r s o) =
    Step-Accounted s o (Reach-IsSound (OrderlyReach-Reach r)) (OrderlyReach-Accounted r)

-- In every world that is reached while channel access reports each channel up and down by turns: the
-- program has made one subscription more than it has cleared for each live channel that is
-- connected, has created one channel more than it has cleared for each live command, and never
-- cleared an event id that was not written; and each live channel was connected by `Connect`, and has
-- a converter and a subscription exactly while it is connected.
pub OrderlyReach-balanced :
    {p : Platform} {t : Tcl} {w : World}
    → OrderlyReach p t w
    → (total makes w.ca_calls ≡ total clears w.ca_calls + sum is_up w.commands)
      × (total Lifecycle.creates w.ca_calls ≡ total releases w.ca_calls + sum each w.commands)
      × All IsDeterminate w.ca_calls
      × ((self : ℕ) (c : Command)
          → at w self ≡ some c
          → (c.channel.connection_handler_established ≡ true)
            × (is_some c.channel.converter ≡ c.channel.connected)
            × (c.channel.update_handler_established ≡ c.channel.connected))
OrderlyReach-balanced r =
    let a = OrderlyReach-Accounted r in
    (
      a.subscriptions,
      a.channels,
      a.determinate,
      λ self c here.
          let lived = a.lived self c here in
          let h = Life-Consistent lived.life in (lived.established, h.converted, h.subscribed),
    )
