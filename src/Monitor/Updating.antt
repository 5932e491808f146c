-- ===== src/Monitor/Updating.antt =====
-- CChannel.cpp: `Update` run whole does what the model of CChannel has it do.
use mathlib.Core.List.{append-nil}
use epics_tcl.Prelude.{
  ap₂, ℕ, ◌≡◌, refl, sym, ap, ◌∙◌, Bool, Option, none, some, [], ◌∷◌, ◌++◌, arith, if◌then◌else◌,
}
use epics_tcl.Ca.{EventArgs, Platform}
use epics_tcl.Converter
use epics_tcl.Channel
use epics_tcl.Channel.{Channel, Slot}
use epics_tcl.Monitor.{effect}
use epics_tcl.Monitor.Members.{
  set_time, set_value, set_vector, text, Shared, update, fire_script, update_script, apply,
}
use epics_tcl.Monitor.Branches.{effect-if, effect-elim}

effect-fire_script :
    (reads : Bool) (s : Shared)
    → effect (fire_script reads) s ≡ (elim s.channel.handler [
      | none ↦ s
      | some slot ↦ record s {
        fired = s.fired ++ (slot, s.channel.handler_data) ∷ [];
        answers = s.answers ++ (if reads then text s.channel.value ∷ [] else []);
      }
    ])
unfolding fire_script
effect-fire_script reads s =
    effect-elim _ s _ s.channel.handler _ (λ unset. simp (unset))
      (λ slot there.
        effect-if _ _ _ reads _ (λ again. simp (again, there))
          (λ once.
            ap
              (λ l. record s {
                fired = s.fired ++ (slot, s.channel.handler_data) ∷ [];
                answers = l;
              })
              (sym (append-nil s.answers))
            ∙ simp (once, there)))

-- The three assignments are those of the model of `Update`, also where there is no converter.
refreshed :
    (p : Platform) (now : ℕ) (args : EventArgs) (s : Shared) (k : Converter.Converter)
    → s.channel.converter ≡ some k
    → set_vector p args (set_value p args (set_time now s))
      ≡ record s { channel = Channel.refresh p now args s.channel }
unfolding Channel.refresh
refreshed p now args s k conv = ap (λ c. record s { channel = c }) (rw conv refl)

kept-refresh :
    (p : Platform) (now : ℕ) (args : EventArgs) (c : Channel)
    → ((Channel.refresh p now args c).handler ≡ c.handler)
      × ((Channel.refresh p now args c).handler_data ≡ c.handler_data)
unfolding Channel.refresh
kept-refresh p now args c = ground arith

-- What the slot's call does to the state that `Update` has left.
module _ (p : Platform) (now : ℕ) (args : EventArgs) (reads : Bool) (s : Shared) where
  abbrev fired_as : Option Slot → Option ℕ → Shared
  fired_as o d =
      let c = Channel.refresh p now args s.channel in
      elim o [
        | none ↦ record s { channel = c }
        | some slot ↦ record s {
          channel = c;
          fired = s.fired ++ (slot, d) ∷ [];
          answers = s.answers ++ (if reads then text c.value ∷ [] else []);
        }
      ]

  abbrev fired_in : Option (Slot × Option ℕ) → Shared
  fired_in o =
      let c = Channel.refresh p now args s.channel in
      elim o [
        | none ↦ record s { channel = c }
        | some f ↦ record s {
          channel = c;
          fired = s.fired ++ f ∷ [];
          answers = s.answers ++ (if reads then text c.value ∷ [] else []);
        }
      ]

  fired_as-apply :
      (o : Option Slot) (d : Option ℕ)
      → fired_as o d ≡ fired_in (elim o [ none ↦ none | some slot ↦ some (slot, d) ])
  fired_as-apply none d = refl
  fired_as-apply (some slot) d = refl

  fired-update :
      effect (fire_script reads) (record s { channel = Channel.refresh p now args s.channel })
      ≡ apply p (update now args reads) s
  unfolding Channel.update Channel.get_value
  fired-update =
      let (slot, slot_data) = kept-refresh p now args s.channel in
      effect-fire_script reads (record s { channel = Channel.refresh p now args s.channel })
      ∙ ap₂ fired_as slot slot_data
      ∙ fired_as-apply s.channel.handler s.channel.handler_data

refresh-none :
    (p : Platform) (now : ℕ) (args : EventArgs) (c : Channel)
    → c.converter ≡ none
    → Channel.refresh p now args c ≡ c
unfolding Channel.refresh
refresh-none p now args c lacking = ground arith

pub effect-update_script :
    (p : Platform) (now : ℕ) (args : EventArgs) (reads : Bool) (s : Shared)
    → effect (update_script p now args reads) s ≡ apply p (update now args reads) s
unfolding update_script
effect-update_script p now args reads s =
    effect-elim _ s _ s.channel.converter _
      (λ lacking.
        ap (λ c. effect (fire_script reads) (record s { channel = c }))
          (sym (refresh-none p now args s.channel lacking))
        ∙ fired-update p now args reads s)
      (λ k conv.
        ap (effect (fire_script reads)) (refreshed p now args s k conv)
        ∙ fired-update p now args reads s)
