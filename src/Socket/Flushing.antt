-- ===== src/Socket/Flushing.antt =====
-- The loop of `Flush` of CSocket.cpp: where it ends, and where it never does.
use epics_tcl.Prelude.{ℕ, suc, ◌<◌, ◌≡◌, ◌⊎◌, true, false, some, List, ◌∷◌, ◌||◌}
use epics_tcl.Prelude.Int.{ℤ, pos}
use epics_tcl.Socket.Os.{Os}
use epics_tcl.Socket.Act.{Outcome, negative, Process, ok, out_of_fuel}
use epics_tcl.Socket.Transfer.{read}
use epics_tcl.Socket.Delivery.{is_throw}

-- The documented behaviour of a stream whose peer is silent: read(2) of data leaves less of it, poll(2)
-- takes none, and reports no event only where none is left. An event may also be POLLERR or POLLNVAL alone.
pub record Inbox (O : Os) : Type 0 where
  pub waiting : O.Kernel → ℕ
  pub reads :
      (fd : ℤ) (k : O.Kernel) (b : ℕ) (bs : List ℕ)
      → (O.read fd 1 k).0 ≡ some (b ∷ bs)
      → waiting (O.read fd 1 k).1 < waiting k
  pub polls : (fd : ℤ) (k : O.Kernel) → waiting (O.poll fd k).1 ≡ waiting k
  pub empties : (fd : ℤ) (k : O.Kernel) → (O.poll fd k).0.result ≡ pos 0 → waiting k ≡ 0

module _ {O : Os} (I : Inbox O) where
  -- A poll that failed or reported a hang-up.
  abbrev pub IsBroken : ℤ → O.Kernel → Type 0
  IsBroken fd k = (negative (O.poll fd k).0.result || (O.poll fd k).0.pollhup) ≡ true

  -- The process after a poll.
  abbrev pub polled : Process O → Process O
  polled p = record p { kernel = (O.poll p.fd p.kernel).1 }

  -- The loop comes from one process to another: each of its passes finds data and no hang-up, and reads
  -- of it.
  pub data Passes : Process O → Process O → Type 0 where
    here : (p : Process O) → Passes p p
    pass :
        (p q : Process O) (n : ℕ)
        → (O.poll p.fd p.kernel).0.result ≡ pos (suc n)
        → (O.poll p.fd p.kernel).0.pollin ≡ true
        → (O.poll p.fd p.kernel).0.pollhup ≡ false
        → Passes (read O 1 (polled p)).1 q
        → Passes p q

  -- A poll that reports an event which is neither data nor a hang-up.
  abbrev pub IsOdd : Process O → Type 0
  IsOdd p =
      (n : ℕ) × ((O.poll p.fd p.kernel).0.result ≡ pos (suc n))
      × ((O.poll p.fd p.kernel).0.pollin ≡ false)
      × ((O.poll p.fd p.kernel).0.pollhup ≡ false)

  -- How a flush of `p` with the result `r` ends: by an exception, with nothing waiting, or at a broken
  -- connection that one of its own passes found; or one of its passes found an odd event, and if poll(2)
  -- goes on to answer the same, it does not end.
  abbrev pub Flushed : Process O → Outcome (Unit {0}) × Process O → Type 0
  Flushed p r =
      (is_throw r.0 ≡ true)
      ⊎ ((r.0 ≡ ok tt) × (I.waiting r.1.kernel ≡ 0))
      ⊎ ((r.0 ≡ ok tt) × (q : Process O) × Passes p q × IsBroken q.fd q.kernel)
      ⊎ ((q : Process O) × Passes p q
          × IsOdd q
          × ((polled q).kernel ≡ q.kernel → r ≡ (out_of_fuel, q)))
