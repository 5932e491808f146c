-- ===== src/Package.antt =====
-- `Epics_Init` and `pollEpics` of CTCLEpicsPackage.cpp: the start of the package, and the thread that
-- it starts, one call at a time.
pub mod Attached
use epics_tcl.Prelude.{
  ℕ, String, Bool, true, false, Option, none, some, List, [], ◌∷◌, ◌++◌, if◌then◌else◌,
}

-- The calls of Tcl and of channel access. A context is a number, NULL is `none`; times are
-- milliseconds.
pub data Call : Type 0 where
  init_stubs : String → Call
  provide : String → String → Call
  new_command : String → Call
  create_context : Call
  create_thread : Call
  attach_context : Option ℕ → Call
  pend_event : ℕ → Call

-- How far `Epics_Init` has come; each is named for what it does next.
pub data Stage : Type 0 where
  stubbing providing commanding creating keeping starting finished : Stage

-- The polling thread: not there, before its attachment, in its loop.
pub data Poller : Type 0 where
  absent fresh looping : Poller

-- `epics_context` is `pEpicsContext`.
pub record Startup : Type 0 where
  pub stage : Stage
  pub poller : Poller
  pub epics_context : Option ℕ
  pub calls : List Call

abbrev pub loaded : Startup
loaded = record { stage = stubbing; poller = absent; epics_context = none; calls = [] }

abbrev makes : Stage → Call → Startup → Startup
makes s c w = record w { stage = s; calls = w.calls ++ c ∷ [] }

-- What the start asks of its surroundings: whether USE_TCL_STUBS is defined, what `ca_current_context`
-- answers, and whether `Tcl_CreateThread` makes the thread; its status is not looked at.
pub record Surroundings : Type 0 where
  pub with_stubs : Bool
  pub current : Option ℕ
  pub makes_thread : Bool

-- The next statement of `Epics_Init`.
unfoldable pub init_step : Surroundings → Startup → Startup
init_step o w = elim w.stage [
  | stubbing ↦
      if o.with_stubs then makes providing (init_stubs "8.3") w else record w { stage = providing }
  | providing ↦ makes commanding (provide "epics" "2.2") w
  | commanding ↦ makes creating (new_command "epicschannel") w
  | creating ↦ makes keeping create_context w
  | keeping ↦ record w { stage = starting; epics_context = o.current }
  | starting ↦ record w {
    stage = finished;
    poller = if o.makes_thread then fresh else w.poller;
    calls = w.calls ++ create_thread ∷ [];
  }
  | finished ↦ w
]

-- The next statement of `pollEpics`, whose loop has no end.
unfoldable pub poll_step : Startup → Startup
poll_step w = elim w.poller [
  | absent ↦ w
  | fresh ↦ record w { poller = looping; calls = w.calls ++ attach_context w.epics_context ∷ [] }
  | looping ↦ record w { calls = w.calls ++ pend_event 0 ∷ [] }
]

-- The two threads take turns in any order: `true` is a step of the polling thread.
unfoldable pub interleave : Surroundings → List Bool → Startup → Startup
unfolding init_step poll_step
interleave o [] w = w
interleave o (turn ∷ turns) w = interleave o turns (if turn then poll_step w else init_step o w)
