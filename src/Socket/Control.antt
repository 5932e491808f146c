-- ===== src/Socket/Control.antt =====
-- The members of `CSocket` that open, connect and close: `OpenSocket`, the constructors, the
-- destructor, `Connect`, `Bind`, `Listen`, `Accept` and `Shutdown`. `CApplicationSerializer`'s lock
-- does nothing.
use epics_tcl.Prelude.{
  ℕ, ◌-◌, ◌^◌, String, Bool, false, not, none, some, List, [], ◌∷◌, nat_eq, print_nat,
  if◌then◌else◌,
}
use epics_tcl.Prelude.Int.{ℤ, pos, negsuc}
use epics_tcl.Socket.Os.{
  State, disconnected, bound, listening, connected, bad_state, no_such_host, connection_failed,
  errno_error, Os,
}
use epics_tcl.Socket.Act.{
  Process, Outcome, ok, throw, Act, negative, pure, raise, ◌>>=◌, ◌>>◌, raise_if, call, call_fd,
  look, set_state, set_fd,
}
use epics_tcl.Socket.ByteOrder.{htons, htonl, ntohs, ntohl}
use epics_tcl.Socket.Names.{stock_state_map}
use epics_tcl.Socket.Service.{service, address_to_host_string}

abbrev pub state_eq : State → State → Bool
state_eq = epics_tcl.Socket.Names.same_state

-- `-1`.
abbrev pub no_fd : ℤ
no_fd = negsuc 0

abbrev is_no_fd : ℤ → Bool
is_no_fd (pos n) = false
is_no_fd (negsuc n) = nat_eq n 0

abbrev is_above_0 : ℤ → Bool
is_above_0 (pos n) = not (nat_eq n 0)
is_above_0 (negsuc n) = false

module _ (O : Os) where
  -- The test at the head of a member: the object must be in the state `s`.
  unfoldable pub require : State → String → Act O (Unit {0})
  require s member p =
      if state_eq p.state s then (ok tt, p) else (throw (bad_state p.state (s ∷ []) member), p)

  abbrev pub stock_names : Act O (Unit {0})
  stock_names p = (ok tt, record p { names = stock_state_map p.names })

  -- The pointer that is tested is not the one that `getprotobyname` returned, but another of the same
  -- name that has no value; and without an entry the protocol has none either.
  unfoldable pub open_socket : Act O (Unit {0})
  open_socket = do
    stock_names
    entry ← call O.getprotobyname
    wild ← look O.wild_int
    is_null ← look O.wild_pointer
    raise_if is_null (errno_error "Getting TCP protocol num from getprotoent(3)")
    fd ← call (O.socket (elim entry [ none ↦ wild | some protocol ↦ protocol ]))
    set_fd fd
    raise_if (is_no_fd fd) (errno_error "Creating socket with socket(2)")

  -- The constructors, on an object that does not exist yet: the names and the kernel are given.
  unfoldable pub new : List (State × String) → O.Kernel → Outcome (Unit {0}) × Process O
  unfolding open_socket
  new names k = open_socket (record { fd = no_fd; state = disconnected; names = names; kernel = k })

  unfoldable pub wrap : ℤ → State → List (State × String) → O.Kernel → Process O
  wrap fd s names k = record { fd = fd; state = s; names = stock_state_map names; kernel = k }

  unfoldable pub shutdown : Act O (Unit {0})
  unfolding require open_socket
  shutdown = do
    require connected "CSocket::Shutdown"
    r ← call_fd O.shutdown
    raise_if (negative r) (errno_error "CSocket::Shutdown failed in call to shutdown(2)")
    set_state disconnected
    call_fd O.close
    set_fd no_fd
    open_socket

  -- The destructor's last lines.
  unfoldable pub close_open : Act O (Unit {0})
  close_open p = if is_above_0 p.fd then (call_fd O.close >> pure tt) p else (ok tt, p)

  unfoldable pub destroy : Act O (Unit {0})
  unfolding shutdown close_open
  destroy p = if state_eq p.state connected then (shutdown >> close_open) p else close_open p

  -- `Connect(IpAddress, service)`, of numbers in the host's byte order.
  unfoldable pub connect : ℕ → ℕ → Act O (Unit {0})
  unfolding require
  connect address port = do
    require disconnected "CSocket::Connect"
    r ← call_fd (λ fd. O.connect fd (htonl address) (htons port))
    raise_if (negative r)
        (connection_failed (O.inet_ntoa (htonl address)) (print_nat (ntohs (htons port))))
    set_state connected

  abbrev inaddr_none : ℕ
  inaddr_none = 2 ^ 32 - 1

  -- The address of a host. The pointer that is tested has no value where the text is an address.
  unfoldable pub resolve : String → Act O ℕ
  resolve host =
      if nat_eq (O.inet_addr host) inaddr_none
      then (do
        entry ← call (O.gethostbyname host)
        elim entry [ none ↦ raise (no_such_host host) | some address ↦ pure address ])
      else (do
        is_null ← look O.wild_pointer
        raise_if is_null (no_such_host host)
        pure (O.inet_addr host))

  -- `Connect(host, service)`.
  unfoldable pub connect_host : String → String → Act O (Unit {0})
  unfolding require resolve connect
  connect_host host name = do
    require disconnected "CSocket::Connect"
    address ← resolve host
    port ← service O name
    connect (ntohl address) (ntohs port)

  unfoldable pub bind : String → Act O (Unit {0})
  unfolding require
  bind name = do
    require disconnected "CSocket::Bind"
    port ← service O name
    r ← call_fd (λ fd. O.bind fd port)
    raise_if (negative r) (errno_error "Error from bind(2) in CSocket::Bind()")
    set_state bound

  unfoldable pub listen : ℕ → Act O (Unit {0})
  unfolding require
  listen backlog = do
    require bound "CSocket::Listen"
    r ← call_fd (λ fd. O.listen fd backlog)
    raise_if (negative r) (errno_error "CSocket::Listen listen(2) failed")
    set_state listening

  -- The new object's descriptor and state, and the client's name.
  unfoldable pub accept : Act O ((ℤ × State) × String)
  unfolding require
  accept = do
    require listening "CSocket::Accept"
    peer ← call_fd O.accept
    raise_if (negative peer.0) (errno_error "CSocket::Accept accept(2) failed")
    stock_names
    client ← address_to_host_string O peer.1
    pure ((peer.0, connected), client)
