-- ===== src/Socket/Members.antt =====
-- The public members of `CSocket` as one alphabet, and the call of one of them.
use epics_tcl.Prelude.{ℕ, String, Bool, List}
use epics_tcl.Prelude.Int.{ℤ}
use epics_tcl.Socket.Os.{Os}
use epics_tcl.Socket.Act.{Act, pure, ◌>>=◌}
use epics_tcl.Socket.Control
use epics_tcl.Socket.Transfer
use epics_tcl.Socket.Options

-- The setters and the getters.
pub data Setting : Type 0 where
  oob_inline : Bool → Setting
  debug : Bool → Setting
  not_routable : Bool → Setting
  rcv_low_water_mark : ℕ → Setting
  snd_low_water_mark : ℕ → Setting
  rcv_timeout : ℕ → Setting
  snd_timeout : ℕ → Setting
  snd_buf_size : ℕ → Setting
  rcv_buf_size : ℕ → Setting
  linger : Bool → ℤ → Setting

pub data Getting : Type 0 where
  is_oob_inline is_debug is_not_routable : Getting
  get_rcv_low_water_mark get_snd_low_water_mark get_rcv_timeout get_snd_timeout : Getting
  get_snd_buf_size get_rcv_buf_size get_linger : Getting

-- `flush` has the passes that its loop is allowed.
pub data Member : Type 0 where
  connect : ℕ → ℕ → Member
  connect_host : String → String → Member
  bind : String → Member
  listen : ℕ → Member
  accept : Member
  shutdown : Member
  read : ℕ → Member
  write : List ℕ → Member
  get_peer : Member
  flush : ℕ → Member
  set : Setting → Member
  get : Getting → Member

module _ (O : Os) where
  abbrev ignore : {A : Type 0} → Act O A → Act O (Unit {0})
  ignore m = m >>= λ _. pure tt

  abbrev pub perform_set : Setting → Act O (Unit {0})
  perform_set (oob_inline b) = Options.oob_inline_on O b
  perform_set (debug b) = Options.set_debug O b
  perform_set (not_routable b) = Options.set_not_routable O b
  perform_set (rcv_low_water_mark n) = Options.set_rcv_low_water_mark O n
  perform_set (snd_low_water_mark n) = Options.set_snd_low_water_mark O n
  perform_set (rcv_timeout ms) = Options.set_rcv_timeout O ms
  perform_set (snd_timeout ms) = Options.set_snd_timeout O ms
  perform_set (snd_buf_size n) = Options.set_snd_buf_size O n
  perform_set (rcv_buf_size n) = Options.set_rcv_buf_size O n
  perform_set (linger b n) = Options.set_linger O b n

  abbrev pub perform_get : Getting → Act O (Unit {0})
  perform_get is_oob_inline = ignore (Options.is_oob_inline O)
  perform_get is_debug = ignore (Options.is_debug O)
  perform_get is_not_routable = ignore (Options.is_not_routable O)
  perform_get get_rcv_low_water_mark = ignore (Options.get_rcv_low_water_mark O)
  perform_get get_snd_low_water_mark = ignore (Options.get_snd_low_water_mark O)
  perform_get get_rcv_timeout = ignore (Options.get_rcv_timeout O)
  perform_get get_snd_timeout = ignore (Options.get_snd_timeout O)
  perform_get get_snd_buf_size = ignore (Options.get_snd_buf_size O)
  perform_get get_rcv_buf_size = ignore (Options.get_rcv_buf_size O)
  perform_get get_linger = ignore (Options.get_linger O)

  -- A call of a member whose result is not looked at.
  abbrev pub perform : Member → Act O (Unit {0})
  perform (connect address port) = Control.connect O address port
  perform (connect_host host service) = Control.connect_host O host service
  perform (bind service) = Control.bind O service
  perform (listen backlog) = Control.listen O backlog
  perform accept = ignore (Control.accept O)
  perform shutdown = Control.shutdown O
  perform (read count) = ignore (Transfer.read O count)
  perform (write buffer) = ignore (Transfer.write O buffer)
  perform get_peer = ignore (Transfer.get_peer O)
  perform (flush passes) = Transfer.flush O passes
  perform (set setting) = perform_set setting
  perform (get getting) = perform_get getting
