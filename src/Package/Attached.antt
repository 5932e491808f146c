-- ===== src/Package/Attached.antt =====
-- The polling thread is attached to the package's context before it polls.
use mathlib.Core.List.{append_assoc}
use epics_tcl.Prelude.{
  ℕ, zero, suc, ◌≡◌, ◌≢◌, refl, subst, ap, ◌∙◌, ◌⊎◌, Bool, true, false, Option, none, List, [], ◌∷◌,
  ◌++◌, inl, inr, if◌then◌else◌,
}
use epics_tcl.Package.{
  Surroundings, Call, init_stubs, provide, new_command, create_context, create_thread,
  attach_context, pend_event, Stage, stubbing, providing, commanding, creating, keeping, starting,
  finished, absent, fresh, looping, Startup, loaded, init_step, poll_step, interleave,
}

abbrev pub stub_calls : Bool → List Call
stub_calls b = if b then init_stubs "8.3" ∷ [] else []

-- The calls of `Epics_Init` before a stage.
abbrev pub calls_before : Bool → Stage → List Call
calls_before b stubbing = []
calls_before b providing = stub_calls b
calls_before b commanding = stub_calls b ++ provide "epics" "2.2" ∷ []
calls_before b creating =
    stub_calls b ++ provide "epics" "2.2" ∷ [] ++ new_command "epicschannel" ∷ []
calls_before b keeping =
    stub_calls b
    ++ provide "epics" "2.2" ∷ []
    ++ new_command "epicschannel" ∷ []
    ++ create_context ∷ []
calls_before b starting =
    stub_calls b
    ++ provide "epics" "2.2" ∷ []
    ++ new_command "epicschannel" ∷ []
    ++ create_context ∷ []
calls_before b finished =
    stub_calls b
    ++ provide "epics" "2.2" ∷ []
    ++ new_command "epicschannel" ∷ []
    ++ create_context ∷ []
    ++ create_thread ∷ []

abbrev pub polls : ℕ → List Call
polls zero = []
polls (suc n) = pend_event 0 ∷ polls n

polls-append : (n : ℕ) → polls n ++ pend_event 0 ∷ [] ≡ polls (suc n)
polls-append zero = refl
polls-append (suc n) = ap (λ l. pend_event 0 ∷ l) (polls-append n)

abbrev kept_before : Option ℕ → Stage → Option ℕ
kept_before current starting = current
kept_before current finished = current
kept_before current _ = none

-- The four kinds of states that a run passes through.
data Fits (o : Surroundings) : Startup → Type 0 where
  before :
      (s : Stage)
      → s ≢ finished
      → Fits o (record {
        stage = s;
        poller = absent;
        epics_context = kept_before o.current s;
        calls = calls_before o.with_stubs s;
      })
  alone :
      o.makes_thread ≡ false
      → Fits o (record {
        stage = finished;
        poller = absent;
        epics_context = o.current;
        calls = calls_before o.with_stubs finished;
      })
  ready :
      o.makes_thread ≡ true
      → Fits o (record {
        stage = finished;
        poller = fresh;
        epics_context = o.current;
        calls = calls_before o.with_stubs finished;
      })
  polling :
      o.makes_thread ≡ true
      → (n : ℕ) (calls : List Call)
      → calls ≡ calls_before o.with_stubs finished ++ (attach_context o.current ∷ polls n)
      → Fits o
          (record { stage = finished; poller = looping; epics_context = o.current; calls = calls })

start-Fits :
    (o : Surroundings) (b : Bool)
    → o.makes_thread ≡ b
    → Fits o (record {
      stage = finished;
      poller = if b then fresh else absent;
      epics_context = o.current;
      calls = calls_before o.with_stubs finished;
    })
start-Fits o true h = ready h
start-Fits o false h = alone h

stubs-Fits :
    (o : Surroundings) (b : Bool)
    → o.with_stubs ≡ b
    → Fits o (init_step (record o { with_stubs = b }) loaded)
unfolding init_step
stubs-Fits o true h =
    subst (λ b. Fits o (record loaded { stage = providing; calls = stub_calls b })) h
      (before providing (λ e. cc))
stubs-Fits o false h =
    subst (λ b. Fits o (record loaded { stage = providing; calls = stub_calls b })) h
      (before providing (λ e. cc))

init_step-Fits : (o : Surroundings) (w : Startup) → Fits o w → Fits o (init_step o w)
unfolding init_step
init_step-Fits o w (before stubbing h) = stubs-Fits o o.with_stubs refl
init_step-Fits o w (before providing h) = before commanding (λ e. cc)
init_step-Fits o w (before commanding h) = before creating (λ e. cc)
init_step-Fits o w (before creating h) = before keeping (λ e. cc)
init_step-Fits o w (before keeping h) = before starting (λ e. cc)
init_step-Fits o w (before starting h) = start-Fits o o.makes_thread refl
init_step-Fits o w (before finished h) = absurd (h refl)
init_step-Fits o w (alone h) = alone h
init_step-Fits o w (ready h) = ready h
init_step-Fits o w (polling h n calls e) = polling h n calls e

poll_step-Fits : (o : Surroundings) (w : Startup) → Fits o w → Fits o (poll_step w)
unfolding poll_step
poll_step-Fits o w (before s h) = before s h
poll_step-Fits o w (alone h) = alone h
poll_step-Fits o w (ready h) = polling h 0 _ refl
poll_step-Fits o w (polling h n calls e) = polling h (suc n) (calls ++ pend_event 0 ∷ []) (
    ap (λ l. l ++ pend_event 0 ∷ []) e
    ∙ append_assoc (calls_before o.with_stubs finished) (attach_context o.current ∷ polls n)
        (pend_event 0 ∷ [])
    ∙ ap (λ l. calls_before o.with_stubs finished ++ (attach_context o.current ∷ l))
        (polls-append n))

interleave-Fits :
    (o : Surroundings) (turns : List Bool) (w : Startup) → Fits o w → Fits o (interleave o turns w)
unfolding interleave
interleave-Fits o [] w f = f
interleave-Fits o (true ∷ turns) w f = interleave-Fits o turns (poll_step w) (poll_step-Fits o w f)
interleave-Fits o (false ∷ turns) w f =
    interleave-Fits o turns (init_step o w) (init_step-Fits o w f)

-- What the two threads have called so far: without the polling thread, what `Epics_Init` calls up to
-- the stage that it has reached, which is not its end where the thread can be made; with it, all that
-- `Epics_Init` calls, and after that the attachment and polls.
abbrev pub Attached : Surroundings → Startup → Type 0
Attached o w =
    ((w.poller ≡ absent)
      × (w.calls ≡ calls_before o.with_stubs w.stage)
      × (o.makes_thread ≡ true → w.stage ≢ finished))
    ⊎ ((o.makes_thread ≡ true)
        × (w.poller ≡ fresh)
        × (w.calls ≡ calls_before o.with_stubs finished))
    ⊎ ((o.makes_thread ≡ true)
        × (w.poller ≡ looping)
        × (n : ℕ) × (w.calls
            ≡ calls_before o.with_stubs finished ++ (attach_context o.current ∷ polls n)))

Fits-Attached : (o : Surroundings) (w : Startup) → Fits o w → Attached o w
Fits-Attached o w (before s h) = inl (refl, refl, λ e. h)
Fits-Attached o w (alone h) = inl (refl, refl, λ e. absurd cc)
Fits-Attached o w (ready h) = inr (inl (h, refl, refl))
Fits-Attached o w (polling h n calls e) = inr (inr (h, refl, n, e))

-- However the start of the package and its polling thread take turns: as long as there is no polling
-- thread, the calls are those of Epics_Init up to the statement that it has reached, and it has not ended if
-- Tcl_CreateThread can make the thread; where it cannot, there never is one.
-- Afterwards, the calls are all of Epics_Init's, and then, once the thread has run, its attachment
-- to the context that ca_current_context answered, and nothing but polls after it.
pub interleave_lem : (o : Surroundings) (turns : List Bool) → Attached o (interleave o turns loaded)
interleave_lem o turns =
    Fits-Attached o _ (interleave-Fits o turns loaded (before stubbing (λ e. cc)))
