-- ===== src/Tests/Sockets.antt =====
-- A kernel of one socket, and the properties of the socket at concrete calls.
use epics_tcl.Prelude.{
  ◌↔◌, ℕ, zero, suc, ◌≤◌, ◌<◌, ◌≡◌, ◌⊎◌, refl, sym, arith, true, false, Option, none, some, List,
  [], ◌∷◌, ◌++◌, length, take, print_nat,
}
use epics_tcl.Prelude.Int.{ℤ, pos, negsuc}
use epics_tcl.Socket.Os.{
  State, disconnected, bound, listening, connected, Os, Errno, TimeVal, Linger, Poll, bad_state,
  rcv_timeo, snd_timeo,
}
use epics_tcl.Socket.Act.{Process, Outcome, ok, throw}
use epics_tcl.Socket.ByteOrder.{htons}
use epics_tcl.Socket.Control.{no_fd, accept, shutdown, destroy, connect_host}
use epics_tcl.Socket.Transfer.{write}
use epics_tcl.Socket.Options.{set_rcv_timeout, get_rcv_timeout, set_snd_timeout, get_snd_timeout}
use epics_tcl.Socket.Members.{Member, perform}
use epics_tcl.Socket.Moves.{may_become}
use epics_tcl.Socket.Diagram.{Run, start, also, perform-moves, Run-Listening, is_write}
use epics_tcl.Socket.Refusals.{is_bad_state, perform-Refuses}
use epics_tcl.Socket.Delivery.{append-nil, Wire, write_lem, is_throw}
use epics_tcl.Socket.Flushing.{Inbox}
use epics_tcl.Socket.Timeouts.{Asks, timeouts-exact_iff}
use epics_tcl.Socket.Addresses.{attempt, connect_host-numbers}

record Toy : Type 0 where
  sent : List ℕ
  waiting : ℕ
  number : ℕ
  time : TimeVal
  linger : Linger

-- It takes two bytes at a time.
abbrev toy_write : List ℕ → Toy → ℤ × Toy
toy_write [] k = (pos 0, k)
toy_write (a ∷ []) k = (pos 1, record k { sent = k.sent ++ (a ∷ []) })
toy_write (a ∷ b ∷ bs) k = (pos 2, record k { sent = k.sent ++ (a ∷ b ∷ []) })

abbrev toy_read : ℕ → Toy → Option (List ℕ) × Toy
toy_read zero k = (some [], k)
toy_read (suc n) k = (some (65 ∷ []), record k { waiting = n })

abbrev toy_poll : ℕ → Poll
toy_poll zero = record { result = pos 0; pollin = false; pollhup = false }
toy_poll (suc n) = record { result = pos 1; pollin = true; pollhup = false }

abbrev toy : Os
toy = record {
  Kernel = Toy;
  socket = λ n k. (pos 4, k);
  connect = λ fd a p k. (pos 0, k);
  bind = λ fd p k. (pos 0, k);
  listen = λ fd n k. (pos 0, k);
  accept = λ fd k. ((pos 5, 7), k);
  shutdown = λ fd k. (pos 0, k);
  close = λ fd k. (pos 0, k);
  read = λ fd n k. toy_read k.waiting k;
  write = λ fd bs k. toy_write bs k;
  poll = λ fd k. (toy_poll k.waiting, k);
  getpeername = λ fd k. (some (7, 80), k);
  set_int = λ fd o size v k. (pos 0, record k { number = v });
  get_int = λ fd o k. (some k.number, k);
  set_time = λ fd o v k. (pos 0, record k { time = v });
  get_time = λ fd o k. (some k.time, k);
  set_linger = λ fd v k. (pos 0, record k { linger = v });
  get_linger = λ fd k. (some k.linger, k);
  errno = λ k. Errno.epipe;
  getprotobyname = λ k. (some 6, k);
  getservbyname = λ s k. (none, k);
  gethostbyname = λ s k. (none, k);
  gethostbyaddr = λ a k. (some "host", k);
  inet_addr = λ s. 16777343;
  inet_ntoa = λ a. "127.0.0.1";
  wild_pointer = λ k. false;
  wild_int = λ k. 6;
}

abbrev rest : Toy
rest = record {
  sent = 9 ∷ [];
  waiting = 3;
  number = 0;
  time = record { tv_sec = 0; tv_usec = 0 };
  linger = record { l_onoff = pos 0; l_linger = pos 0 };
}

abbrev process : State → Process toy
process s = record { fd = pos 3; state = s; names = []; kernel = rest }

toy_takes :
    (fd : ℤ) (bs : List ℕ) (k : Toy) (n : ℕ)
    → (toy_write bs k).0 ≡ pos n
    → (n ≤ length bs) × ((toy_write bs k).1.sent ≡ k.sent ++ take n bs)
toy_takes fd [] k n e =
    let m : n ≡ 0 = ground (arith, e) in rw m (omega arith, sym (append-nil k.sent))
toy_takes fd (a ∷ []) k n e = let m : n ≡ 1 = ground (arith, e) in rw m (omega arith, refl)
toy_takes fd (a ∷ b ∷ bs) k n e = let m : n ≡ 2 = ground (arith, e) in rw m (omega arith, refl)

toy_takes_none :
    (fd : ℤ) (bs : List ℕ) (k : Toy) (n : ℕ)
    → (toy_write bs k).0 ≡ negsuc n
    → (toy_write bs k).1.sent ≡ k.sent
toy_takes_none fd [] k n e = refl
toy_takes_none fd (a ∷ []) k n e = absurd cc
toy_takes_none fd (a ∷ b ∷ bs) k n e = absurd cc

toy_reads :
    (w : ℕ) (k : Toy) (b : ℕ) (bs : List ℕ)
    → (toy_read w k).0 ≡ some (b ∷ bs)
    → (toy_read w k).1.waiting < w
toy_reads zero k b bs e = absurd cc
toy_reads (suc w) k b bs e = omega arith

abbrev toy_wire : Wire toy
toy_wire = record {
  sent = λ k. k.sent;
  takes = toy_takes;
  takes_none = toy_takes_none;
  shutdown_keeps = λ fd k. refl;
  close_keeps = λ fd k. refl;
  socket_keeps = λ n k. refl;
  database_keeps = λ k. refl;
}

toy_empties : (w : ℕ) → (toy_poll w).result ≡ pos 0 → w ≡ 0
toy_empties zero e = refl
toy_empties (suc w) e = absurd (ground (arith, e))

abbrev toy_inbox : Inbox toy
toy_inbox = record {
  waiting = λ k. k.waiting;
  reads = λ fd k. toy_reads k.waiting k;
  polls = λ fd k. refl;
  empties = λ fd k. toy_empties k.waiting;
}

perform-moves_example :
    (may_become disconnected (perform toy (Member.connect 1 80) (process disconnected)).1.state
      ≡ true)
    ⊎ ((is_write (Member.connect 1 80) ≡ true)
        × ((perform toy (Member.connect 1 80) (process disconnected)).1.state ≡ disconnected))
perform-moves_example = perform-moves toy (Member.connect 1 80) (process disconnected)

abbrev bound_process : Process toy
bound_process = (perform toy (Member.bind "80") (process disconnected)).1

abbrev listening_process : Process toy
listening_process = (perform toy (Member.listen 5) bound_process).1

listening_state : listening_process.state ≡ listening
unfolding epics_tcl.Socket.Control.bind epics_tcl.Socket.Control.listen
    epics_tcl.Socket.Control.require epics_tcl.Socket.Service.service
    epics_tcl.Socket.Service.scan_int epics_tcl.Socket.Service.scan_nat
    epics_tcl.Socket.Service.scan_digits
listening_state = refl

Run-Listening_example :
    (q : Process toy) × (m : Member) × (Run toy (process disconnected) q
      × (q.state ≡ bound)
      × ((perform toy m q).1.state ≡ listening))
Run-Listening_example =
    Run-Listening toy (process disconnected) listening_process
      (also (also start (Member.bind "80")) (Member.listen 5)) refl listening_state

perform-Refuses_example :
    (is_write (Member.read 4) ≡ false
      → perform toy (Member.read 4) (process bound)
        ≡ (throw (bad_state bound (connected ∷ []) "CSocket::Read()"), process bound))
    × (is_write (Member.read 4) ≡ true
        → is_bad_state (perform toy (Member.read 4) (process bound)).0 ≡ false)
perform-Refuses_example =
    perform-Refuses toy (Member.read 4) connected "CSocket::Read()" (process bound) refl
      (λ e. ground (arith, e))

abbrev three : List ℕ
three = 5 ∷ 6 ∷ 7 ∷ []

abbrev written : Outcome ℕ × Process toy
written = write toy three (process connected)

write_lem_example :
    ((n : ℕ) × ((written.0 ≡ ok n)
        × ((0 < n) ⊎ (three ≡ []))
        × (n ≤ 3)
        × (written.1.kernel.sent ≡ (9 ∷ []) ++ take n three)))
    ⊎ ((is_throw written.0 ≡ true)
        × (written.1.state ≡ disconnected)
        × (written.1.kernel.sent ≡ 9 ∷ []))
write_lem_example = write_lem toy_wire three (process connected)

abbrev two_and_half : TimeVal
two_and_half = record { tv_sec = 2; tv_usec = 500000 }

abbrev timed : Process toy
timed = record (process connected) { kernel = record rest { time = two_and_half } }

timeouts-exact_iff_example :
    Asks toy timed rcv_timeo 1500 (set_rcv_timeout toy 1500 timed).1
    × Asks toy timed snd_timeo 1500 (set_snd_timeout toy 1500 timed).1
    × (((get_rcv_timeout toy timed).0 ≡ ok 2500) ↔ (500000 < 1000))
    × (((get_snd_timeout toy timed).0 ≡ ok 2500) ↔ (500000 < 1000))
timeouts-exact_iff_example =
    timeouts-exact_iff toy timed 1500 two_and_half two_and_half refl refl (omega arith, omega arith)
      (omega arith, omega arith)

connect_host-numbers_example :
    connect_host toy "127.0.0.1" (print_nat 70000) (process disconnected)
    ≡ attempt toy 16777343 (htons 4464) (process disconnected)
connect_host-numbers_example =
    connect_host-numbers toy "127.0.0.1" 70000 (process disconnected) refl (omega arith)
