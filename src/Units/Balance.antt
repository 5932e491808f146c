-- ===== src/Units/Balance.antt =====
-- The channel access calls that CChannelList and CUnitsChannel cause balance, at any moment of a
-- list's life.
use mathlib.Core.List.{append-nil}
use epics_tcl.Prelude.{subst, ℕ, ◌+◌, refl, String, List, [], ◌∷◌, ◌++◌, Bool-cases, inl, inr}
use epics_tcl.Ca.{CaCall, Platform}
use epics_tcl.Channel
use epics_tcl.Channel.{Channel, state_handler, update_handler}
use epics_tcl.Channel.Lifecycle.{born}
use epics_tcl.Channel.Lifecycle.Continues.{
  connect-Continues, state_handler-Continues, update_handler-Continues,
}
use epics_tcl.Units.{
  UnitChannel, Item, plain, with_units, base_of, connect, connect_item, look_up, look_up_all,
  push_back,
}
use epics_tcl.Units
use epics_tcl.Units.Standing.{
  Standing, nothing, of_channel, Moves, Moves-channel, Moves-refl, Moves-trans, Moves-first,
  Moves-second, Account, Account-Moves,
}
use epics_tcl.Units.Life.{
  Callback, changes, updates, ItemCallback, at_channel, at_base, at_units, ListLife, made,
  pushes_channel, pushes_units, looks_up, called_back, of_item, of_list,
}

module _ (p : Platform) where
  Callback-Moves :
      {c c' : Channel} {calls : List CaCall}
      → Callback p c c' calls
      → Moves (of_channel p c) (of_channel p c') calls
  Callback-Moves (changes c args a) = Moves-channel (state_handler-Continues p args c a)
  Callback-Moves (updates c now args) = Moves-channel (update_handler-Continues p now args c)

  ItemCallback-Moves :
      {i i' : Item} {calls : List CaCall}
      → ItemCallback p i i' calls
      → Moves (of_item p i) (of_item p i') calls
  ItemCallback-Moves (at_channel k) = Callback-Moves k
  ItemCallback-Moves (at_base units k) = Moves-first (of_channel p units) (Callback-Moves k)
  ItemCallback-Moves (at_units base k) = Moves-second (of_channel p base) (Callback-Moves k)

  within-Moves :
      (before after : List Item) (i i' : Item) {calls : List CaCall}
      → Moves (of_item p i) (of_item p i') calls
      → Moves (of_list p (before ++ i ∷ after)) (of_list p (before ++ i' ∷ after)) calls
  within-Moves [] after i i' m = Moves-first (of_list p after) m
  within-Moves (b ∷ before) after i i' m =
      Moves-second (of_item p b) (within-Moves before after i i' m)

  connect_item-Moves :
      (ids : ℕ × ℕ) (i : Item)
      → Moves (of_item p i) (of_item p (connect_item ids i).0) (connect_item ids i).1
  unfolding connect_item connect
  connect_item-Moves ids (plain c) = Moves-channel (connect-Continues p ids.0 c)
  connect_item-Moves ids (with_units c) =
      Moves-trans
        (Moves-first (of_channel p c.units) (Moves-channel (connect-Continues p ids.0 c.base)))
        (Moves-second (of_channel p (Channel.connect ids.0 c.base).0)
          (Moves-channel (connect-Continues p ids.1 c.units)))

  look_up-Moves :
      (ids : ℕ × ℕ) (i : Item) → Moves (of_item p i) (of_item p (look_up ids i).0) (look_up ids i).1
  unfolding look_up
  look_up-Moves ids i = elim (Bool-cases (Channel.is_connected (base_of i))) [
    | inl live ↦ rw live (Moves-refl (of_item p i))
    | inr down ↦ rw down (connect_item-Moves ids i)
  ]

  look_up_all-Moves :
      (ids : ℕ → ℕ × ℕ) (n : ℕ) (is : List Item)
      → Moves (of_list p is) (of_list p (look_up_all ids n is).0) (look_up_all ids n is).1
  unfolding look_up_all
  look_up_all-Moves ids n [] = Moves-refl nothing
  look_up_all-Moves ids n (i ∷ is) =
      Moves-trans (Moves-first (of_list p is) (look_up-Moves (ids n) i))
        (Moves-second (of_item p (look_up (ids n) i).0) (look_up_all-Moves ids (n + 1) is))

  push_back-Moves :
      (i : Item)
      → Moves nothing (of_list p (i ∷ [])) []
      → (is : List Item) → Moves (of_list p is) (of_list p (push_back i is)) []
  unfolding push_back
  push_back-Moves i m [] = m
  push_back-Moves i m (j ∷ is) = Moves-second (of_item p j) (push_back-Moves i m is)

  new-Moves : (name : String) → Moves nothing (of_list p (plain (Channel.new name) ∷ [])) []
  unfolding Channel.new
  new-Moves name = record {
    lives = λ _. (([], born name), tt);
    subscriptions = λ _. refl;
    creations = λ _. refl;
    kept = refl;
    determinate = λ _. tt;
  }

  units_new-Moves :
      (name : String) → Moves nothing (of_list p (with_units (Units.new name) ∷ [])) []
  unfolding Units.new Channel.new
  units_new-Moves name = record {
    lives = λ _. ((([], born name), ([], born _)), tt);
    subscriptions = λ _. refl;
    creations = λ _. refl;
    kept = refl;
    determinate = λ _. tt;
  }

  nothing-Account : Account nothing []
  nothing-Account = record {
    lived = tt;
    subscriptions = refl;
    creations = refl;
    kept = refl;
    determinate = tt;
  }

  without_calls : {s : Standing} {log : List CaCall} → Account s (log ++ []) → Account s log
  without_calls {s} {log} a = subst (Account s) (append-nil log) a

  pub ListLife-Account :
      {is : List Item} {log : List CaCall} → ListLife p is log → Account (of_list p is) log
  ListLife-Account made = nothing-Account
  ListLife-Account (pushes_channel {is} l name) =
      without_calls (Account-Moves (ListLife-Account l) (push_back-Moves _ (new-Moves name) is))
  ListLife-Account (pushes_units {is} l name) =
      without_calls
        (Account-Moves (ListLife-Account l) (push_back-Moves _ (units_new-Moves name) is))
  ListLife-Account (looks_up {is} l ids) =
      Account-Moves (ListLife-Account l) (look_up_all-Moves ids 0 is)
  ListLife-Account (called_back before after l k) =
      Account-Moves (ListLife-Account l) (within-Moves before after _ _ (ItemCallback-Moves k))
