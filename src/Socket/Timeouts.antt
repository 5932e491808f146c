-- ===== src/Socket/Timeouts.antt =====
-- The timeouts of CSocket.cpp: what the setters ask of setsockopt(2), and what the getters make of the
-- answer of getsockopt(2).
use epics_tcl.Prelude.{ℕ, ◌+◌, ◌*◌, ◌/◌, ◌%◌, ◌^◌, ◌<◌, ◌≡◌, ◌↔◌, some, arith}
use epics_tcl.Socket.Os.{Os, TimeVal, SocketOption, rcv_timeo, snd_timeo}
use epics_tcl.Socket.Act.{Process, ok}
use epics_tcl.Socket.Options.{
  set_timeout, get_timeout, set_rcv_timeout, get_rcv_timeout, set_snd_timeout, get_snd_timeout,
}

-- The whole milliseconds of a time.
abbrev pub milliseconds : TimeVal → ℕ
milliseconds t = t.tv_sec * 1000 + t.tv_usec / 1000

-- A time as the kernel gives it, with less than a second in `tv_usec`, and fewer milliseconds than an
-- `unsigned int` holds.
abbrev pub IsTime : TimeVal → Type 0
IsTime t = (t.tv_usec < 1000000) × (milliseconds t < 2 ^ 32)

module _ (O : Os) (p : Process O) where
  -- One call of setsockopt(2) with the option and a time of `ms` milliseconds.
  abbrev pub Asks : SocketOption → ℕ → Process O → Type 0
  Asks option ms q =
      (t : TimeVal) × (q.kernel ≡ (O.set_time p.fd option t p.kernel).1)
      × (milliseconds t ≡ ms)
      × (t.tv_usec < 1000000)

  set_timeout-Asks : (option : SocketOption) (ms : ℕ) → Asks option ms (set_timeout O option ms p).1
  unfolding set_timeout
  set_timeout-Asks option ms =
      let t : TimeVal = record { tv_sec = ms / 1000; tv_usec = ms % 1000 * 1000 } in
      (t, ground arith, omega arith, omega arith)

  get_timeout-exact_iff :
      (option : SocketOption) (t : TimeVal)
      → (O.get_time p.fd option p.kernel).0 ≡ some t
      → IsTime t
      → ((get_timeout O option p).0 ≡ ok (milliseconds t)) ↔ (t.tv_usec < 1000)
  unfolding get_timeout
  get_timeout-exact_iff option t e h =
      ((λ exact. ground (arith, e, exact)), (λ whole. ground (arith, e, whole)))

  -- The setters of the timeouts for receiving and sending call setsockopt(2) once, for that timeout, with a
  -- time that is exactly the milliseconds given. Where getsockopt(2) answers a time with less than a second in
  -- its microseconds and fewer than 2 ^ 32 milliseconds, the getters, which are documented to answer
  -- its milliseconds, do so exactly if it has no whole millisecond beyond its seconds.
  pub timeouts-exact_iff :
      (ms : ℕ) (r s : TimeVal)
      → (O.get_time p.fd rcv_timeo p.kernel).0 ≡ some r
      → (O.get_time p.fd snd_timeo p.kernel).0 ≡ some s
      → IsTime r
      → IsTime s
      → Asks rcv_timeo ms (set_rcv_timeout O ms p).1
        × Asks snd_timeo ms (set_snd_timeout O ms p).1
        × (((get_rcv_timeout O p).0 ≡ ok (milliseconds r)) ↔ (r.tv_usec < 1000))
        × (((get_snd_timeout O p).0 ≡ ok (milliseconds s)) ↔ (s.tv_usec < 1000))
  unfolding set_rcv_timeout set_snd_timeout get_rcv_timeout get_snd_timeout
  timeouts-exact_iff ms r s er es hr hs = (
    set_timeout-Asks rcv_timeo ms,
    set_timeout-Asks snd_timeo ms,
    get_timeout-exact_iff rcv_timeo r er hr,
    get_timeout-exact_iff snd_timeo s es hs,
  )
