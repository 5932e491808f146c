-- ===== src/System/Drain.antt =====
-- The Tcl event loop takes all events of the queue, one after the other.
use mathlib.Core.List.{append-nil, append_assoc}
use epics_tcl.Prelude.{
  String, ℕ, ◌≡◌, refl, ap, ◌∙◌, none, some, List, [], ◌∷◌, ◌++◌, All, Option-cases, inl, inr,
}
use epics_tcl.Channel
use epics_tcl.Command.{Command, VariableInfo}
use epics_tcl.Tcl.{TclCall, trace, untrace, set}
use epics_tcl.Variable
use epics_tcl.Links.Lists.{IsEntry}
use epics_tcl.Map.{Map, lookup, address_eq, string_eq}
use epics_tcl.World.{RefCountedChannel, World, ChangeEvent, Run, done, ◌>>=◌, calls_tcl}
use epics_tcl.Registry.{have_channel}
use epics_tcl.Change.{update_all, update_linked_variable, update, dispatch}
use epics_tcl.System.Steps.{IsServable}

-- The events of the list, which are those of the queue, are taken; none is added meanwhile.
unfoldable pub drain : List ChangeEvent → World → Run World
unfolding dispatch
drain [] w = done w
drain (e ∷ es) w = do w' ← dispatch (e ∷ es) w; drain es w'

-- What the linked variables of the command at `self` are to see of a value: each in its turn, with the
-- command's trace taken off the variable while it is set.
abbrev pub sets : ℕ → String → List VariableInfo → List TclCall
sets self value [] = []
sets self value (i ∷ is) =
    untrace self i.varname ∷ set self i.varname value ∷ trace self i.varname ∷ sets self value is

-- The links of each command are its own.
abbrev pub AreOwn : Map ℕ Command → Type 0
AreOwn commands =
    (self : ℕ) (c : Command) → lookup self commands ≡ some c → All (IsEntry self) c.linked_variables

pub update_all-sets :
    (self : ℕ) (value : String) (is : List VariableInfo)
    → All (IsEntry self) is
    → update_all value is ≡ sets self value is
unfolding update_all Variable.new_epics_value Variable.enable_tracing Variable.disable_tracing
update_all-sets self value [] h = refl
update_all-sets self value (i ∷ is) h =
    rw (h.0.owned, h.0.named, update_all-sets self value is h.1) refl

module _ (channels : Map String RefCountedChannel) (commands : Map ℕ Command) where
  -- What the processing of an event calls: nothing if the name is not known, and else the calls that
  -- set the command's variables to its channel's value.
  abbrev pub event_calls : ChangeEvent → List TclCall
  event_calls e = elim (lookup e.channel_name channels) [
    | none ↦ []
    | some info ↦ elim (lookup e.changed_channel commands) [
      | none ↦ []
      | some c ↦ sets e.changed_channel (Channel.get_value c.channel) c.linked_variables
    ]
  ]

  abbrev pub queue_calls : List ChangeEvent → List TclCall
  queue_calls [] = []
  queue_calls (e ∷ es) = event_calls e ++ queue_calls es

  pub queue_calls-append :
      (es fs : List ChangeEvent) → queue_calls (es ++ fs) ≡ queue_calls es ++ queue_calls fs
  queue_calls-append [] fs = refl
  queue_calls-append (e ∷ es) fs =
      rw (queue_calls-append es fs, append_assoc (event_calls e) (queue_calls es) (queue_calls fs))

update-unknown :
    (e : ChangeEvent) (w : World)
    → lookup e.channel_name w.known_channels ≡ none
    → update e w ≡ done (calls_tcl (event_calls w.known_channels w.commands e) w)
unfolding update have_channel
update-unknown e w unknown = rw (unknown, update, event_calls, append-nil)

update-calls :
    (e : ChangeEvent) (w : World)
    → AreOwn w.commands
    → IsServable w e
    → update e w ≡ done (calls_tcl (event_calls w.known_channels w.commands e) w)
unfolding update update_linked_variable have_channel
update-calls e w own (inl gone) = update-unknown e w gone
update-calls e w own (inr (c, here)) =
    elim (Option-cases (lookup e.channel_name w.known_channels)) [
      | inl gone ↦ update-unknown e w gone
      | inr (info, known) ↦
          rw (known, update, event_calls)
            (rw (
              here,
              update_all-sets e.changed_channel (Channel.get_value c.channel) c.linked_variables
                  (own e.changed_channel c here),
            ))
    ]

-- The events are processed in their order, each in the world that the queue was found in.
pub drain-calls :
    (es : List ChangeEvent) (w : World)
    → AreOwn w.commands
    → All (IsServable w) es
    → w.queue ≡ es
    → drain es w
      ≡ done (record w {
        queue = [];
        tcl_calls = w.tcl_calls ++ queue_calls w.known_channels w.commands es;
      })
unfolding drain dispatch have_channel
drain-calls [] w own h idle = rw (append-nil, ← idle)
drain-calls (e ∷ es) w own h q =
    let w1 = record w { queue = es } in
    let calls = event_calls w.known_channels w.commands e in
    let first : update e w1 ≡ done (calls_tcl calls w1) = update-calls e w1 own h.0 in
    let rest = drain-calls es (calls_tcl calls w1) own h.1 refl in
    rw first (
      rest
      ∙ ap (λ l. done (record w { queue = []; tcl_calls = l }))
          (append_assoc w.tcl_calls calls (queue_calls w.known_channels w.commands es)))
