-- ===== src/System/Ledger/Moves.antt =====
-- What an operation does to the account: a channel that lives on, calls that count for nothing, a
-- new channel, and one that is deleted.
use epics_tcl.Prelude.{
  ap, ℕ, ◌≡◌, refl, String, some, none, List, [], ◌++◌, nat_eq, Bool-cases, inl, inr, arith, All,
  All-append, subst,
}
use epics_tcl.Ca.{CaCall, Platform}
use epics_tcl.Channel.{Channel, connect, new, destroy}
use epics_tcl.Channel.Lifecycle.{
  one_if, born, connects, makes, clears, creates, total, total-append, IsDeterminate,
}
use epics_tcl.Channel.Lifecycle.Kept.{Life-Consistent}
use epics_tcl.Channel.Lifecycle.Continues.{
  releases, Continues, Continues-subscriptions, Continues-creates, Continues-IsDeterminate,
}
use epics_tcl.Map.{Map, lookup, insert, erase, address_eq, lookup-insert, lookup-erase}
use epics_tcl.Map.Sums.{IsDistinct-erase, IsDistinct-insert, sum-erase, sum-replace, sum-insert}
use epics_tcl.Command.{Command}
use epics_tcl.Registry.{Fresh, created}
use epics_tcl.System.Ledger.{is_up, each, IsLived, Accounted}

-- A command's channel lives on, and stays as connected by `Connect` as it was.
pub record LivesOn (p : Platform) (ch ch' : Channel) (calls : List CaCall) : Type 0 where
  pub continues : Continues p ch ch' calls
  pub established : ch'.connection_handler_established ≡ ch.connection_handler_established

-- Calls that neither make nor clear a subscription or a channel.
pub record IsNeutral (calls : List CaCall) : Type 0 where
  pub makes_none : total makes calls ≡ 0
  pub clears_none : total clears calls ≡ 0
  pub creates_none : total creates calls ≡ 0
  pub releases_none : total releases calls ≡ 0
  pub determinate : All IsDeterminate calls

module _ {p : Platform} {commands : Map ℕ Command} {calls : List CaCall}
    (a : Accounted p commands calls) where
  pub Accounted-neutral :
      {more : List CaCall} → IsNeutral more → Accounted p commands (calls ++ more)
  Accounted-neutral {more} n = record {
    distinct = a.distinct;
    lived = a.lived;
    subscriptions = omega (
      arith,
      a.subscriptions,
      n.makes_none,
      n.clears_none,
      total-append makes calls more,
      total-append clears calls more,
    );
    channels = omega (
      arith,
      a.channels,
      n.creates_none,
      n.releases_none,
      total-append creates calls more,
      total-append releases calls more,
    );
    determinate = All-append IsDeterminate calls more a.determinate n.determinate;
  }

  -- A live command's channel lives on.
  pub Accounted-replaced :
      (self : ℕ) (c c' : Command) {more : List CaCall}
      → lookup self commands ≡ some c
      → LivesOn p c.channel c'.channel more
      → Accounted p (insert self c' commands) (calls ++ more)
  Accounted-replaced self c c' {more} here on =
      let lived = a.lived self c here in
      record {
        distinct = IsDistinct-insert self c' commands a.distinct;
        lived = λ s d e. elim (Bool-cases (nat_eq self s)) [
          | inl hit ↦
              let c'≡d : c' ≡ d = ground (arith, lookup-insert self s c' commands) in
              subst (IsLived p) c'≡d (record {
                log = lived.log ++ more;
                life = on.continues.lives lived.log lived.life;
                established = ground (arith, on.established, lived.established);
              })
          | inr miss ↦ a.lived s d (ground (arith, lookup-insert self s c' commands))
        ];
        subscriptions = omega (
          arith,
          a.subscriptions,
          Continues-subscriptions on.continues lived.life,
          sum-replace is_up self c c' commands a.distinct here,
          total-append makes calls more,
          total-append clears calls more,
        );
        channels = omega (
          arith,
          a.channels,
          on.continues.kept,
          Continues-creates on.continues lived.life,
          ap one_if on.established,
          sum-replace each self c c' commands a.distinct here,
          total-append creates calls more,
          total-append releases calls more,
        );
        determinate =
            All-append IsDeterminate calls more a.determinate
              (Continues-IsDeterminate on.continues lived.life);
      }

  -- A new command at a free address.
  pub Accounted-created :
      (f : Fresh) (name : String)
      → lookup f.address commands ≡ none
      → Accounted p
          (insert f.address (created f name) commands)
          (calls ++ (connect f.chid (new name)).1)
  unfolding connect new
  Accounted-created f name free =
      let more = (connect f.chid (new name)).1 in
      record {
        distinct = IsDistinct-insert f.address (created f name) commands a.distinct;
        lived = λ s d e. elim (Bool-cases (nat_eq f.address s)) [
          | inl hit ↦
              let same : created f name ≡ d =
                ground (arith, lookup-insert f.address s (created f name) commands) in
              subst (IsLived p) same (record {
                log = [] ++ more;
                life = connects (born name) f.chid;
                established = refl;
              })
          | inr miss ↦
              a.lived s d (ground (arith, lookup-insert f.address s (created f name) commands))
        ];
        subscriptions = omega (
          arith,
          a.subscriptions,
          sum-insert is_up f.address (created f name) commands free,
          total-append makes calls more,
          total-append clears calls more,
        );
        channels = omega (
          arith,
          a.channels,
          sum-insert each f.address (created f name) commands free,
          total-append creates calls more,
          total-append releases calls more,
        );
        determinate = All-append IsDeterminate calls more a.determinate (tt, tt);
      }

  -- A command is deleted, and its channel destroyed.
  pub Accounted-deleted :
      (self : ℕ) (c : Command)
      → lookup self commands ≡ some c
      → Accounted p (erase self commands) (calls ++ (destroy c.channel).1)
  unfolding destroy
  Accounted-deleted self c here =
      let more = (destroy c.channel).1 in
      let lived = a.lived self c here in
      let h = Life-Consistent lived.life in
      record {
        distinct = IsDistinct-erase self commands a.distinct;
        lived = λ s d e. a.lived s d (ground (arith, lookup-erase self s commands));
        subscriptions = ground (
          arith,
          a.subscriptions,
          h.subscribed,
          sum-erase is_up self c commands a.distinct here,
          total-append makes calls more,
          total-append clears calls more,
        );
        channels = ground (
          arith,
          a.channels,
          sum-erase each self c commands a.distinct here,
          total-append creates calls more,
          total-append releases calls more,
        );
        determinate =
            All-append IsDeterminate calls more a.determinate
              (ground (arith, h.subscribed, h.identified));
      }
