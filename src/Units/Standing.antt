-- ===== src/Units/Standing.antt =====
-- What a channel, or several, stand for in the count of the calls of channel access.
use epics_tcl.Prelude.{ℕ, ◌+◌, ◌≡◌, refl, List, [], ◌++◌, arith, All, All-append}
use epics_tcl.Ca.{CaCall, Platform}
use epics_tcl.Channel.{Channel, destroy}
use epics_tcl.Channel.Lifecycle.{
  Life, makes, clears, creates, total, total-append, IsDeterminate, one_if,
}
use epics_tcl.Channel.Lifecycle.Kept.{Life-Consistent}
use epics_tcl.Channel.Lifecycle.Continues.{
  releases, Continues, Continues-subscriptions, Continues-creates, Continues-IsDeterminate,
}

-- Each channel has a history of its own; `up` of them are connected, `Connect` was called of
-- `established`, and there are `number` in all.
pub record Standing : Type 1 where
  pub Lived : Type 0
  pub up : ℕ
  pub established : ℕ
  pub number : ℕ

abbrev pub nothing : Standing
nothing = record { Lived = Unit; up = 0; established = 0; number = 0 }

abbrev pub of_channel : Platform → Channel → Standing
of_channel p c = record {
  Lived = (log : List CaCall) × Life p c log;
  up = one_if c.connected;
  established = one_if c.connection_handler_established;
  number = 1;
}

abbrev pub both : Standing → Standing → Standing
both s t = record {
  Lived = s.Lived × t.Lived;
  up = s.up + t.up;
  established = s.established + t.established;
  number = s.number + t.number;
}

-- By the calls, what stood for `s` stands for `s'`.
pub record Moves (s s' : Standing) (calls : List CaCall) : Type 0 where
  pub lives : s.Lived → s'.Lived
  pub subscriptions : s.Lived → total makes calls + s.up ≡ total clears calls + s'.up
  pub creations : s.Lived → total creates calls + s.established ≡ s'.established
  pub kept : total releases calls ≡ 0
  pub determinate : s.Lived → All IsDeterminate calls

pub Moves-channel :
    {p : Platform} {c c' : Channel} {calls : List CaCall}
    → Continues p c c' calls
    → Moves (of_channel p c) (of_channel p c') calls
Moves-channel {calls = calls} on = record {
  lives = λ (log, l). (log ++ calls, on.lives log l);
  subscriptions = λ (log, l). Continues-subscriptions on l;
  creations = λ (log, l). Continues-creates on l;
  kept = on.kept;
  determinate = λ (log, l). Continues-IsDeterminate on l;
}

pub Moves-refl : (s : Standing) → Moves s s []
Moves-refl s = record {
  lives = λ l. l;
  subscriptions = λ l. refl;
  creations = λ l. omega arith;
  kept = refl;
  determinate = λ l. tt;
}

pub Moves-trans :
    {s s' s'' : Standing} {calls more : List CaCall}
    → Moves s s' calls
    → Moves s' s'' more
    → Moves s s'' (calls ++ more)
Moves-trans {calls = calls} {more = more} m n = record {
  lives = λ l. n.lives (m.lives l);
  subscriptions = λ l. omega (
    arith,
    m.subscriptions l,
    n.subscriptions (m.lives l),
    total-append makes calls more,
    total-append clears calls more,
  );
  creations =
      λ l. omega (arith, m.creations l, n.creations (m.lives l), total-append creates calls more);
  kept = omega (arith, m.kept, n.kept, total-append releases calls more);
  determinate =
      λ l. All-append IsDeterminate calls more (m.determinate l) (n.determinate (m.lives l));
}

pub Moves-first :
    {s s' : Standing} {calls : List CaCall} (t : Standing)
    → Moves s s' calls
    → Moves (both s t) (both s' t) calls
Moves-first t m = record {
  lives = λ (l, k). (m.lives l, k);
  subscriptions = λ (l, k). omega (arith, m.subscriptions l);
  creations = λ (l, k). omega (arith, m.creations l);
  kept = m.kept;
  determinate = λ (l, k). m.determinate l;
}

pub Moves-second :
    {s s' : Standing} {calls : List CaCall} (t : Standing)
    → Moves s s' calls
    → Moves (both t s) (both t s') calls
Moves-second t m = record {
  lives = λ (k, l). (k, m.lives l);
  subscriptions = λ (k, l). omega (arith, m.subscriptions l);
  creations = λ (k, l). omega (arith, m.creations l);
  kept = m.kept;
  determinate = λ (k, l). m.determinate l;
}

-- The calls of the destructors of what stands for `s`.
pub record Ended (s : Standing) (calls : List CaCall) : Type 0 where
  pub no_makes : s.Lived → total makes calls ≡ 0
  pub cleared : s.Lived → total clears calls ≡ s.up
  pub no_creates : s.Lived → total creates calls ≡ 0
  pub released : s.Lived → total releases calls ≡ s.number
  pub determinate : s.Lived → All IsDeterminate calls

pub Ended-channel : (p : Platform) (c : Channel) → Ended (of_channel p c) (destroy c).1
unfolding destroy
Ended-channel p c = record {
  no_makes = λ l. ground arith;
  cleared = λ (log, l). ground (arith, (Life-Consistent l).subscribed);
  no_creates = λ l. ground arith;
  released = λ l. ground arith;
  determinate =
      λ (log, l). ground (arith, (Life-Consistent l).subscribed, (Life-Consistent l).identified);
}

pub Ended-both :
    {s t : Standing} {calls more : List CaCall}
    → Ended s calls
    → Ended t more
    → Ended (both s t) (calls ++ more)
Ended-both {calls = calls} {more = more} m n = record {
  no_makes = λ (l, k). omega (arith, m.no_makes l, n.no_makes k, total-append makes calls more);
  cleared = λ (l, k). omega (arith, m.cleared l, n.cleared k, total-append clears calls more);
  no_creates =
      λ (l, k). omega (arith, m.no_creates l, n.no_creates k, total-append creates calls more);
  released = λ (l, k). omega (arith, m.released l, n.released k, total-append releases calls more);
  determinate = λ (l, k). All-append IsDeterminate calls more (m.determinate l) (n.determinate k);
}

-- The order of two makes no difference.
pub Ended-swap :
    (s t : Standing) {calls : List CaCall} → Ended (both t s) calls → Ended (both s t) calls
Ended-swap s t m = record {
  no_makes = λ (l, k). m.no_makes (k, l);
  cleared = λ (l, k). omega (arith, m.cleared (k, l));
  no_creates = λ (l, k). m.no_creates (k, l);
  released = λ (l, k). omega (arith, m.released (k, l));
  determinate = λ (l, k). m.determinate (k, l);
}

-- The account of the calls so far.
pub record Account (s : Standing) (log : List CaCall) : Type 0 where
  pub lived : s.Lived
  pub subscriptions : total makes log ≡ total clears log + s.up
  pub creations : total creates log ≡ s.established
  pub kept : total releases log ≡ 0
  pub determinate : All IsDeterminate log

pub Account-Moves :
    {s s' : Standing} {log calls : List CaCall}
    → Account s log
    → Moves s s' calls
    → Account s' (log ++ calls)
Account-Moves {log = log} {calls = calls} a m = record {
  lived = m.lives a.lived;
  subscriptions = omega (
    arith,
    a.subscriptions,
    m.subscriptions a.lived,
    total-append makes log calls,
    total-append clears log calls,
  );
  creations = omega (arith, a.creations, m.creations a.lived, total-append creates log calls);
  kept = omega (arith, a.kept, m.kept, total-append releases log calls);
  determinate = All-append IsDeterminate log calls a.determinate (m.determinate a.lived);
}
