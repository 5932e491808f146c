-- ===== src/System/Steps.antt =====
-- Every step keeps the world sound, so that every world that is reached is sound.
use epics_tcl.Prelude.{
  ℕ, ◌≡◌, refl, ◌⊎◌, String, Option, none, some, List, [], ◌∷◌, ltb, length, Bool-cases,
  Option-cases, inl, inr, arith, subst, join,
}
use epics_tcl.Ca.{Platform}
use epics_tcl.Tcl.{Tcl}
use epics_tcl.Map.{lookup, address_eq, string_eq}
use epics_tcl.Command.{Command, usage, word, fail}
use epics_tcl.World.{World, ChangeEvent, Run, done, ◌>>=◌, found, at}
use epics_tcl.Registry.{have_channel}
use epics_tcl.Links.{silent}
use epics_tcl.Change.{update, update_linked_variable, channel_event, connection_event, dispatch}
use epics_tcl.Dispatch.{Subcommand, Answers, subcommand, run, invoke, variable_write}
use epics_tcl.System.{
  IsSound, empty, Step, creates, invokes, updates, connects, dispatches, writes, Reach, start, next,
}
use epics_tcl.System.LinkSteps.{link-Ends, unlink-IsSound}
use epics_tcl.System.Operations.{Ends, delete_channel-Ends, epicschannel-Ends}
use epics_tcl.System.Events.{
  connection_event-Ends, variable_write-Ends, channel_event-Ends, dispatch-Ends,
}

-- The result of a computation that ends.
pub Ends-result {ℓ} :
    {A : Type ℓ} (P : A → Type 0) {m : Run A} {x : A} → Ends P m → m ≡ done x → P x
Ends-result P {m} {x} (a, ended, h) e = subst P (ground (arith)) h

module _ (p : Platform) (t : Tcl) (a : Answers) (self : ℕ) (c : Command) (objv : List String)
    (w : World) where
  run-Ends :
      (s : Subcommand)
      → lookup self w.commands ≡ some c
      → IsSound w
      → Ends (λ x. IsSound x.0) (run p t a s self c objv w)
  unfolding run
  run-Ends Subcommand.get here h = (_, refl, h)
  run-Ends Subcommand.set here h =
      (_, refl, record { registered = h.registered; linked = h.linked })
  run-Ends Subcommand.delete here h =
      let (w', ended, h') = delete_channel-Ends c.name w h in ((w', silent), rw ended, h')
  run-Ends Subcommand.updatetime here h = (_, refl, h)
  run-Ends Subcommand.link here h = link-Ends self c objv w here h
  run-Ends Subcommand.unlink here h = (_, refl, unlink-IsSound self c objv w here h)
  run-Ends Subcommand.listlinks here h = (_, refl, h)
  run-Ends Subcommand.values here h = (_, refl, h)
  run-Ends Subcommand.size here h = (_, refl, h)
  run-Ends Subcommand.other here h = (_, refl, h)

  pub invoke-Ends :
      lookup self w.commands ≡ some c
      → IsSound w
      → Ends (λ x. IsSound x.0) (invoke p t a self objv w)
  unfolding invoke
  invoke-Ends here h = elim (Bool-cases (ltb (length objv) 2)) [
    | inl few ↦ (
      (
        w,
        fail (join (word objv 0 ∷ " -- incorrect number of command parameters\n" ∷ usage c ∷ [])),
      ),
      rw here (rw few),
      h,
    )
    | inr enough ↦
        let (x, ended, h') = run-Ends (subcommand (word objv 1)) here h in
        (x, rw here (rw enough ended), h')
  ]

-- A computation that begins with the object at an address ends only if an object is there.
pub live_of_done {ℓ} :
    {A : Type ℓ} (o : Option Command) (f : Command → Run A) {x : A}
    → (found o >>= f) ≡ done x
    → (c : Command) × (o ≡ some c)
live_of_done none f e = cc
live_of_done (some c) f e = (c, refl)

-- An event's processing can do without its command, or has it.
abbrev pub IsServable : World → ChangeEvent → Type 0
IsServable w e =
    (have_channel e.channel_name w ≡ none)
    ⊎ ((c : Command) × (lookup e.changed_channel w.commands ≡ some c))

pub update-IsServable : (e : ChangeEvent) (w w' : World) → update e w ≡ done w' → IsServable w e
unfolding update
update-IsServable e w w' d = elim (Option-cases (have_channel e.channel_name w)) [
  | inl gone ↦ inl gone
  | inr (info, here) ↦
      let d' : update_linked_variable e.changed_channel w ≡ done w' = ground arith in
      inr (live_of_done (at w e.changed_channel) _ d')
]

dispatch-IsServable :
    (es : List ChangeEvent) (w w' : World)
    → dispatch es w ≡ done w'
    → (e : ChangeEvent) (rest : List ChangeEvent) → es ≡ e ∷ rest
    → IsServable w e
unfolding dispatch have_channel
dispatch-IsServable [] w w' d e rest q = cc
dispatch-IsServable (x ∷ xs) w w' d e rest q =
    subst (IsServable w) (ground arith) (update-IsServable x (record w { queue = xs }) w' d)

-- A step from a sound world leads to a sound world.
pub Step-IsSound : {p : Platform} {t : Tcl} {w w' : World} → Step p t w w' → IsSound w → IsSound w'
unfolding invoke channel_event connection_event variable_write
Step-IsSound {w = w} (creates f command objv r free e) s =
    Ends-result (λ x. IsSound x.0) (epicschannel-Ends f command objv w free s) e
Step-IsSound {p} {t} {w} (invokes a self objv r e) s =
    let (c, here) = live_of_done (at w self) _ e in
    Ends-result (λ x. IsSound x.0) (invoke-Ends p t a self c objv w here s) e
Step-IsSound {p} {w = w} (updates thread now self args e) s =
    let (c, here) = live_of_done (at w self) _ e in
    Ends-result IsSound (channel_event-Ends p thread now self args c w here s) e
Step-IsSound {w = w} (connects self args e) s =
    let (c, here) = live_of_done (at w self) _ e in
    Ends-result IsSound (connection_event-Ends self args c w here s) e
Step-IsSound {w = w} {w' = w'} (dispatches e) s =
    Ends-result IsSound (dispatch-Ends w.queue w (dispatch-IsServable w.queue w w' e) s) e
Step-IsSound {w = w} (writes self contents e) s =
    let (c, here) = live_of_done (at w self) _ e in
    Ends-result IsSound (variable_write-Ends self contents c w here s) e

empty-IsSound : IsSound empty
unfolding lookup
empty-IsSound = record {
  registered = record { entries = tt; known = λ s c e. cc };
  linked = record { well = λ s c e. absurd (cc); exclusive = λ a b c d v ea eb la lb. cc };
}

-- Every world that the program reaches is sound: each known channel has a live command of its name
-- and at least one reference, and each live command is known under its name at its address; each
-- list of linked variables names no variable twice, each entry's variable has the entry's name and
-- its command's channel, the channel's slot is set, to mark that command, exactly while the list is
-- not empty; and no variable is linked by two commands.
pub Reach-IsSound : {p : Platform} {t : Tcl} {w : World} → Reach p t w → IsSound w
Reach-IsSound start = empty-IsSound
Reach-IsSound (next r step) = Step-IsSound step (Reach-IsSound r)
