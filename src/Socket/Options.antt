-- ===== src/Socket/Options.antt =====
-- The members of `CSocket` that set and get socket options.
use epics_tcl.Prelude.{
  ℕ, ◌*◌, ◌/◌, ◌%◌, ◌^◌, String, Bool, true, false, not, none, some, nat_eq, if◌then◌else◌,
}
use epics_tcl.Prelude.Int.{ℤ, pos, negsuc}
use epics_tcl.Socket.Os.{
  errno_error, Errno, epipe, enoprotoopt, other, Os, SocketOption, oob_inline, rcv_lowat, snd_lowat,
  rcv_timeo, snd_timeo, debug, dont_route, snd_buf, rcv_buf,
}
use epics_tcl.Socket.Act.{Act, negative, pure, raise, ◌>>=◌, ◌>>◌, raise_if, call_fd, look}

abbrev as_int : Bool → ℕ
as_int b = if b then 1 else 0

abbrev is_enoprotoopt : Errno → Bool
is_enoprotoopt enoprotoopt = true
is_enoprotoopt epipe = false
is_enoprotoopt other = false

module _ (O : Os) where
  -- `setsockopt` of a value of `size` bytes.
  unfoldable pub set_option : SocketOption → ℕ → ℕ → String → Act O (Unit {0})
  set_option option size value text = do
    r ← call_fd (λ fd. O.set_int fd option size value)
    raise_if (negative r) (errno_error text)

  unfoldable pub get_option : SocketOption → String → Act O ℕ
  get_option option text = do
    r ← call_fd (λ fd. O.get_int fd option)
    elim r [ none ↦ raise (errno_error text) | some value ↦ pure value ]

  unfoldable pub get_flag : SocketOption → String → Act O Bool
  unfolding get_option
  get_flag option text = do value ← get_option option text; pure (not (nat_eq value 0))

  unfoldable pub oob_inline_on : Bool → Act O (Unit {0})
  unfolding set_option
  oob_inline_on on = set_option oob_inline 4 (as_int on) "CSocket::OOBInline setsockopt(2) failed"

  unfoldable pub is_oob_inline : Act O Bool
  unfolding get_flag
  is_oob_inline = get_flag oob_inline "CSocket::OOBInline getsockopt(2) failed"

  -- It passes the eight bytes of a `size_t`.
  unfoldable pub set_rcv_low_water_mark : ℕ → Act O (Unit {0})
  set_rcv_low_water_mark bytes = do
    r ← call_fd (λ fd. O.set_int fd rcv_lowat 8 bytes)
    errno ← look O.errno
    (if negative r
        then raise_if (not (is_enoprotoopt errno))
            (errno_error "CSocket::setRcvLowWaterMark() setsockopt(2) failed")
        else pure tt)

  unfoldable pub get_rcv_low_water_mark : Act O ℕ
  unfolding get_option
  get_rcv_low_water_mark = get_option rcv_lowat "CSocket::getRcvLowWaterMark() getsockopt(2) failed"

  -- Where the call fails, an exception object is made but not thrown.
  unfoldable pub set_snd_low_water_mark : ℕ → Act O (Unit {0})
  set_snd_low_water_mark bytes = do call_fd (λ fd. O.set_int fd snd_lowat 8 bytes); pure tt

  unfoldable pub get_snd_low_water_mark : Act O ℕ
  unfolding get_option
  get_snd_low_water_mark = get_option snd_lowat "CSocket::getRcvLowWaterMark() getsockopt(2) failed"

  unfoldable pub set_timeout : SocketOption → ℕ → Act O (Unit {0})
  set_timeout option ms = do
    r ←
        call_fd
          (λ fd. O.set_time fd option (record { tv_sec = ms / 1000; tv_usec = ms % 1000 * 1000 }))
    errno ← look O.errno
    (if negative r
        then raise_if (not (is_enoprotoopt errno))
            (errno_error "CSocket::setRcvTimeout setsockopt(2) failed")
        else pure tt)

  -- `nMs = tv_sec*1000; + tv_usec/1000000`, where the second statement does nothing; the
  -- result is an `unsigned int`.
  unfoldable pub get_timeout : SocketOption → Act O ℕ
  get_timeout option = do
    r ← call_fd (λ fd. O.get_time fd option)
    elim r [
      | none ↦ raise (errno_error "CSocket::getRcvTimeout getsockopt(2) failed")
      | some time ↦ pure (time.tv_sec * 1000 % 2 ^ 32)
    ]

  unfoldable pub set_rcv_timeout : ℕ → Act O (Unit {0})
  unfolding set_timeout
  set_rcv_timeout ms = set_timeout rcv_timeo ms

  unfoldable pub get_rcv_timeout : Act O ℕ
  unfolding get_timeout
  get_rcv_timeout = get_timeout rcv_timeo

  unfoldable pub set_snd_timeout : ℕ → Act O (Unit {0})
  unfolding set_timeout
  set_snd_timeout ms = set_timeout snd_timeo ms

  unfoldable pub get_snd_timeout : Act O ℕ
  unfolding get_timeout
  get_snd_timeout = get_timeout snd_timeo

  unfoldable pub set_debug : Bool → Act O (Unit {0})
  unfolding set_option
  set_debug on = set_option debug 4 (as_int on) "CSocket::Debug setsockopt(2) failed"

  unfoldable pub is_debug : Act O Bool
  unfolding get_flag
  is_debug = get_flag debug "CSocket:Debug getsockopt(2) failed"

  unfoldable pub set_not_routable : Bool → Act O (Unit {0})
  unfolding set_option
  set_not_routable on =
      set_option dont_route 4 (as_int on) "CSocket::SetNotRoutable setsockopt(2) failed"

  unfoldable pub is_not_routable : Act O Bool
  unfolding get_flag
  is_not_routable = get_flag dont_route "CSocket::isNotRoutable getsockopt(2) failed"

  -- The size is an `unsigned int`.
  unfoldable pub set_snd_buf_size : ℕ → Act O (Unit {0})
  unfolding set_option
  set_snd_buf_size bytes =
      set_option snd_buf 4 (bytes % 2 ^ 32) "CSocket::setSndBufSize setsockopt(2) failed"

  unfoldable pub get_snd_buf_size : Act O ℕ
  unfolding get_option
  get_snd_buf_size = get_option snd_buf "CSocket::getSndBufSize getsockopt(2) failed"

  unfoldable pub set_rcv_buf_size : ℕ → Act O (Unit {0})
  unfolding set_option
  set_rcv_buf_size bytes =
      set_option rcv_buf 4 (bytes % 2 ^ 32) "CSocket::setRcvBufSize setsockopt(2) failed"

  unfoldable pub get_rcv_buf_size : Act O ℕ
  unfolding get_option
  get_rcv_buf_size = get_option rcv_buf "CSocket::getSndBufSize getsockopt(2) failed"

  -- Where lingering is off, the seconds have no value.
  unfoldable pub set_linger : Bool → ℤ → Act O (Unit {0})
  set_linger on seconds = do
    wild ← look O.wild_int
    r ← call_fd (λ fd.
        O.set_linger fd
          (record { l_onoff = pos (as_int on); l_linger = (if on then seconds else pos wild) }))
    raise_if (negative r) (errno_error "CSocket::setLinger setsockopt(2) failed")

  unfoldable pub get_linger : Act O (Bool × ℤ)
  get_linger = do
    r ← call_fd O.get_linger
    elim r [
      | none ↦ raise (errno_error "CSocket::getLinger getsockopt(2) failed")
      | some l ↦ pure ((elim l.l_onoff [ pos n ↦ not (nat_eq n 0) | negsuc n ↦ true ]), l.l_linger)
    ]
