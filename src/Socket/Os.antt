-- ===== src/Socket/Os.antt =====
-- The states and the exceptions of `CSocket`, and what it asks of the operating system and of the
-- network databases: an interface over an unknown state of the kernel. Numbers below 0 are how a
-- call fails, addresses and ports are in network byte order where the calls have them so.
use epics_tcl.Prelude.{ℕ, String, Bool, Option, List}
use epics_tcl.Prelude.Int.{ℤ}

-- `CSocket::State`.
pub data State : Type 0 where
  disconnected bound listening connected : State

-- The exceptions with the arguments that they are made of.
pub data Error : Type 0 where
  bad_state : State → List State → String → Error
  no_such_host : String → Error
  no_such_service : String → Error
  connection_failed : String → String → Error
  errno_error : String → Error
  connection_lost : String → Error

-- The values of `errno` that the source tells apart.
pub data Errno : Type 0 where
  epipe enoprotoopt other : Errno

pub data SocketOption : Type 0 where
  oob_inline rcv_lowat snd_lowat rcv_timeo snd_timeo debug dont_route snd_buf rcv_buf : SocketOption

-- `struct timeval`, and `struct linger`.
pub record TimeVal : Type 0 where
  pub tv_sec : ℕ
  pub tv_usec : ℕ

pub record Linger : Type 0 where
  pub l_onoff : ℤ
  pub l_linger : ℤ

-- What `poll(2)` returns of one descriptor: its result, and whether POLLIN and POLLHUP are set.
pub record Poll : Type 0 where
  pub result : ℤ
  pub pollin : Bool
  pub pollhup : Bool

-- `read` delivers the bytes that it transfers, `none` for a result below 0. `wild_pointer` tells
-- whether an uninitialised pointer reads as NULL, and `wild_int` what an uninitialised `int` holds.
pub record Os : Type 1 where
  pub Kernel : Type 0
  pub socket : ℕ → Kernel → ℤ × Kernel
  pub connect : ℤ → ℕ → ℕ → Kernel → ℤ × Kernel
  pub bind : ℤ → ℕ → Kernel → ℤ × Kernel
  pub listen : ℤ → ℕ → Kernel → ℤ × Kernel
  pub accept : ℤ → Kernel → (ℤ × ℕ) × Kernel
  pub shutdown : ℤ → Kernel → ℤ × Kernel
  pub close : ℤ → Kernel → ℤ × Kernel
  pub read : ℤ → ℕ → Kernel → Option (List ℕ) × Kernel
  pub write : ℤ → List ℕ → Kernel → ℤ × Kernel
  pub poll : ℤ → Kernel → Poll × Kernel
  pub getpeername : ℤ → Kernel → Option (ℕ × ℕ) × Kernel
  pub set_int : ℤ → SocketOption → ℕ → ℕ → Kernel → ℤ × Kernel
  pub get_int : ℤ → SocketOption → Kernel → Option ℕ × Kernel
  pub set_time : ℤ → SocketOption → TimeVal → Kernel → ℤ × Kernel
  pub get_time : ℤ → SocketOption → Kernel → Option TimeVal × Kernel
  pub set_linger : ℤ → Linger → Kernel → ℤ × Kernel
  pub get_linger : ℤ → Kernel → Option Linger × Kernel
  pub errno : Kernel → Errno
  pub getprotobyname : Kernel → Option ℕ × Kernel
  pub getservbyname : String → Kernel → Option ℕ × Kernel
  pub gethostbyname : String → Kernel → Option ℕ × Kernel
  pub gethostbyaddr : ℕ → Kernel → Option String × Kernel
  pub inet_addr : String → ℕ
  pub inet_ntoa : ℕ → String
  pub wild_pointer : Kernel → Bool
  pub wild_int : Kernel → ℕ
