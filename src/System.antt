-- ===== src/System.antt =====
-- The whole: worlds whose registry and links are sound, and the steps that the Tcl thread and
-- channel access take.
pub mod Operations
pub mod LinkSteps
pub mod Events
pub mod Steps
pub mod Progress
pub mod RoundTrip
pub mod Linking
pub mod LinkCounts
pub mod Drain
pub mod Teardown
pub mod Delivery
pub mod Counts
pub mod Errors
pub mod Ledger
use epics_tcl.Prelude.{ℕ, ◌≡◌, Option, none, List, [], String}
use epics_tcl.Ca.{ConnectionArgs, EventArgs, Platform}
use epics_tcl.Tcl.{Tcl, Reply}
use epics_tcl.World.{World, Run, done, at}
use epics_tcl.Registry.{Fresh, epicschannel}
use epics_tcl.Registry.Sound.{Registered}
use epics_tcl.Links.Sound.{Linked}
use epics_tcl.Change.{channel_event, connection_event, dispatch}
use epics_tcl.Dispatch.{Answers, invoke, variable_write}

-- Each known channel has a live command of its name and at least one reference, each live command is
-- known under its name; and the links of the commands fit together.
pub record IsSound (w : World) : Type 0 where
  pub registered : Registered w.known_channels w.commands
  pub linked : Linked w.commands

abbrev pub empty : World
empty = record { known_channels = []; commands = []; queue = []; ca_calls = []; tcl_calls = [] }

-- A step that ends: `epicschannel`, with a new object at an address where none lives; a channel
-- command; the two callbacks of channel access; the Tcl event loop; a script's write to a traced
-- variable.
pub data Step (p : Platform) (t : Tcl) (w w' : World) : Type 0 where
  creates :
      (f : Fresh) (command : String) (objv : List String) (r : Reply)
      → at w f.address ≡ none
      → epicschannel f command objv w ≡ done (w', r)
      → Step p t w w'
  invokes :
      (a : Answers) (self : ℕ) (objv : List String) (r : Reply)
      → invoke p t a self objv w ≡ done (w', r)
      → Step p t w w'
  updates :
      (thread now self : ℕ) (args : EventArgs)
      → channel_event p thread now self args w ≡ done w'
      → Step p t w w'
  connects :
      (self : ℕ) (args : ConnectionArgs) → connection_event self args w ≡ done w' → Step p t w w'
  dispatches : dispatch w.queue w ≡ done w' → Step p t w w'
  writes : (self : ℕ) (contents : String) → variable_write self contents w ≡ done w' → Step p t w w'

pub data Reach (p : Platform) (t : Tcl) : World → Type 0 where
  start : Reach p t empty
  next : {w w' : World} → Reach p t w → Step p t w w' → Reach p t w'
