-- ===== src/Socket/Diagram.antt =====
-- The members of CSocket.cpp against the diagram of the states in CSocket.h's documentation.
use epics_tcl.Prelude.{◌≡◌, ◌⊎◌, arith, Bool, true, false, inl, inr}
use epics_tcl.Socket.Os.{disconnected, bound, listening, Os}
use epics_tcl.Socket.Act.{Process}
use epics_tcl.Socket.Options.{
  set_option, get_option, get_flag, oob_inline_on, is_oob_inline, set_rcv_low_water_mark,
  get_rcv_low_water_mark, set_snd_low_water_mark, get_snd_low_water_mark, set_timeout, get_timeout,
  set_rcv_timeout, get_rcv_timeout, set_snd_timeout, get_snd_timeout, set_debug, is_debug,
  set_not_routable, is_not_routable, set_snd_buf_size, get_snd_buf_size, set_rcv_buf_size,
  get_rcv_buf_size, set_linger, get_linger,
}
use epics_tcl.Socket.Members.{Member, Setting, Getting, perform, perform_set, perform_get}
use epics_tcl.Socket.Moves.{
  may_become, may_become-same, connect-moves, connect_host-moves, bind-moves, listen-moves,
  accept-moves, shutdown-moves, read-moves, get_peer-moves, flush-moves, write-state,
}

abbrev pub OnlyKernel : {O : Os} → Process O → Process O → Type 0
OnlyKernel p q = (q.fd ≡ p.fd) × (q.state ≡ p.state) × (q.names ≡ p.names)

abbrev pub is_write : Member → Bool
is_write (Member.write bs) = true
is_write _ = false

module _ (O : Os) where
  set-OnlyKernel : (s : Setting) (p : Process O) → OnlyKernel p (perform_set O s p).1
  unfolding set_option oob_inline_on set_debug set_not_routable set_rcv_low_water_mark
      set_snd_low_water_mark set_timeout set_rcv_timeout set_snd_timeout set_snd_buf_size
      set_rcv_buf_size set_linger
  set-OnlyKernel (Setting.oob_inline b) p = ground arith
  set-OnlyKernel (Setting.debug b) p = ground arith
  set-OnlyKernel (Setting.not_routable b) p = ground arith
  set-OnlyKernel (Setting.rcv_low_water_mark n) p = ground arith
  set-OnlyKernel (Setting.snd_low_water_mark n) p = ground arith
  set-OnlyKernel (Setting.rcv_timeout n) p = ground arith
  set-OnlyKernel (Setting.snd_timeout n) p = ground arith
  set-OnlyKernel (Setting.snd_buf_size n) p = ground arith
  set-OnlyKernel (Setting.rcv_buf_size n) p = ground arith
  set-OnlyKernel (Setting.linger b n) p = ground arith

  get-OnlyKernel : (g : Getting) (p : Process O) → OnlyKernel p (perform_get O g p).1
  unfolding get_option get_flag is_oob_inline is_debug is_not_routable get_rcv_low_water_mark
      get_snd_low_water_mark get_timeout get_rcv_timeout get_snd_timeout get_snd_buf_size
      get_rcv_buf_size get_linger
  get-OnlyKernel Getting.is_oob_inline p = ground arith
  get-OnlyKernel Getting.is_debug p = ground arith
  get-OnlyKernel Getting.is_not_routable p = ground arith
  get-OnlyKernel Getting.get_rcv_low_water_mark p = ground arith
  get-OnlyKernel Getting.get_snd_low_water_mark p = ground arith
  get-OnlyKernel Getting.get_rcv_timeout p = ground arith
  get-OnlyKernel Getting.get_snd_timeout p = ground arith
  get-OnlyKernel Getting.get_snd_buf_size p = ground arith
  get-OnlyKernel Getting.get_rcv_buf_size p = ground arith
  get-OnlyKernel Getting.get_linger p = ground arith

  -- Whatever its outcome, a call of any member keeps the state or follows an arrow of the diagram,
  -- disconnected to connected, disconnected to bound, bound to listening, connected to disconnected; only
  -- `Write`, which has no guard, may besides end in Disconnected from any state.
  pub perform-moves :
      (m : Member) (p : Process O)
      → (may_become p.state (perform O m p).1.state ≡ true)
        ⊎ ((is_write m ≡ true) × ((perform O m p).1.state ≡ disconnected))
  perform-moves (Member.connect address port) p = inl (connect-moves O address port p)
  perform-moves (Member.connect_host host name) p = inl (connect_host-moves O host name p)
  perform-moves (Member.bind name) p = inl (bind-moves O name p)
  perform-moves (Member.listen n) p = inl (listen-moves O n p)
  perform-moves Member.accept p = ground (arith, accept-moves O p)
  perform-moves Member.shutdown p = inl (shutdown-moves O p)
  perform-moves (Member.read n) p = ground (arith, read-moves O n p)
  perform-moves (Member.write bs) p = ground (arith, write-state O bs p, may_become-same p.state)
  perform-moves Member.get_peer p = ground (arith, get_peer-moves O p)
  perform-moves (Member.flush n) p = inl (flush-moves O n p)
  perform-moves (Member.set s) p = ground (arith, set-OnlyKernel s p, may_become-same p.state)
  perform-moves (Member.get g) p = ground (arith, get-OnlyKernel g p, may_become-same p.state)

  -- Calls of members, one after the other.
  pub data Run : Process O → Process O → Type 0 where
    start : {p : Process O} → Run p p
    also : {p q : Process O} → Run p q → (m : Member) → Run p (perform O m q).1

  last_step :
      (m : Member) (q : Process O)
      → (perform O m q).1.state ≡ listening
      → (q.state ≡ listening) ⊎ (q.state ≡ bound)
  last_step m q e = ground (arith, perform-moves m q)

  -- A socket that is Disconnected and later Listening was Bound in between, right before a member that
  -- made it Listening; whatever is called, in whatever order, and whatever the kernel answers.
  pub Run-Listening :
      (p r : Process O)
      → Run p r
      → p.state ≡ disconnected
      → r.state ≡ listening
      → (q : Process O) × (m : Member) × (Run p q
          × (q.state ≡ bound)
          × ((perform O m q).1.state ≡ listening))
  Run-Listening p r start d l = absurd cc
  Run-Listening p r (also {q = q} run m) d l = elim (last_step m q l) [
    | inl e ↦ Run-Listening p q run d e
    | inr e ↦ (q, m, (run, e, l))
  ]
