-- ===== src/Socket/Refusals.antt =====
-- The state tests at the heads of the members of CSocket.cpp, and `Write`, which has none although its
-- documentation asks for one.
use epics_tcl.Prelude.{
  ℕ, zero, suc, ◌+◌, ◌≡◌, ◌≢◌, refl, arith, String, Bool, true, false, Option, none, some, List, [],
  ◌∷◌, inl, inr, length,
}
use epics_tcl.Socket.Os.{State, disconnected, bound, listening, connected, bad_state, Os}
use epics_tcl.Socket.Act.{Process, Outcome, throw, Act}
use epics_tcl.Socket.Names.{same_state_iff}
use epics_tcl.Socket.Control.{
  require, open_socket, connect, connect_host, bind, listen, accept, shutdown,
}
use epics_tcl.Socket.Transfer.{
  lose_connection, read, write_failed, write_loop, write, get_peer, drop,
}
use epics_tcl.Socket.Members.{Member, perform}
use epics_tcl.Socket.Moves.{count-cases}
use epics_tcl.Socket.Diagram.{is_write}

-- The state that the documentation of a member asks for, and the name that its exception has.
abbrev pub documented : Member → Option (State × String)
documented (Member.connect address port) = some (disconnected, "CSocket::Connect")
documented (Member.connect_host host name) = some (disconnected, "CSocket::Connect")
documented (Member.bind name) = some (disconnected, "CSocket::Bind")
documented (Member.listen n) = some (bound, "CSocket::Listen")
documented Member.accept = some (listening, "CSocket::Accept")
documented Member.shutdown = some (connected, "CSocket::Shutdown")
documented (Member.read n) = some (connected, "CSocket::Read()")
documented (Member.write bs) = some (connected, "CSocket::Write")
documented Member.get_peer = some (connected, "CSocket::GetPeer")
documented _ = none

abbrev pub is_bad_state : {A : Type 0} → Outcome A → Bool
is_bad_state (throw (bad_state s allowed member)) = true
is_bad_state _ = false

-- The member refuses a process whose state differs from `s`.
abbrev pub Refuses : {O : Os} → Act O (Unit {0}) → Process O → State → String → Type 0
Refuses m p s name = m p ≡ (throw (bad_state p.state (s ∷ []) name), p)

module _ (O : Os) where
  require-Refuses :
      (s : State) (member : String) (p : Process O)
      → p.state ≢ s
      → require O s member p ≡ (throw (bad_state p.state (s ∷ []) member), p)
  unfolding require
  require-Refuses s member p h = ground (arith, same_state_iff p.state s)

  open_socket-accepts : (p : Process O) → is_bad_state (open_socket O p).0 ≡ false
  unfolding open_socket
  open_socket-accepts p = ground arith

  write_failed-accepts : (n : ℕ) (p : Process O) → is_bad_state (write_failed O n p).0 ≡ false
  unfolding write_failed lose_connection
  write_failed-accepts n p = ground (arith, open_socket-accepts _)

  write_loop-accepts :
      (fuel : ℕ) (bs : List ℕ) (n : ℕ) (p : Process O)
      → is_bad_state (write_loop O fuel bs n p).0 ≡ false
  unfolding write_loop
  write_loop-accepts fuel [] n p = refl
  write_loop-accepts zero (b ∷ bs) n p = refl
  write_loop-accepts (suc fuel) (b ∷ bs) n p =
      let after = record p { kernel = (O.write p.fd (b ∷ bs) p.kernel).1 } in
      elim (count-cases (O.write p.fd (b ∷ bs) p.kernel).0) [
        | inl (k, e) ↦ rw e (write_loop-accepts fuel (drop (suc k) (b ∷ bs)) (n + suc k) after)
        | inr (inl e) ↦ rw e (write_failed-accepts n after)
        | inr (inr (k, e)) ↦ rw e (write_failed-accepts n after)
      ]

  -- A member that is documented to throw the exception of a bad state unless the socket is in a certain
  -- one, called in another state: every such member but Write throws it, with the state, the state that it
  -- wants and its name, and changes nothing, not even in the kernel. Write, which is documented to ask for
  -- Connected, never throws it.
  pub perform-Refuses :
      (m : Member) (s : State) (name : String) (p : Process O)
      → documented m ≡ some (s, name)
      → p.state ≢ s
      → (is_write m ≡ false → Refuses (perform O m) p s name)
        × (is_write m ≡ true → is_bad_state (perform O m p).0 ≡ false)
  unfolding connect connect_host bind listen accept shutdown read get_peer write
  perform-Refuses (Member.connect a b) s name p g h =
      ((λ i. ground (arith, require-Refuses s name p)), (λ i. absurd cc))
  perform-Refuses (Member.connect_host a b) s name p g h =
      ((λ i. ground (arith, require-Refuses s name p)), (λ i. absurd cc))
  perform-Refuses (Member.bind a) s name p g h =
      ((λ i. ground (arith, require-Refuses s name p)), (λ i. absurd cc))
  perform-Refuses (Member.listen n) s name p g h =
      ((λ i. ground (arith, require-Refuses s name p)), (λ i. absurd cc))
  perform-Refuses Member.accept s name p g h =
      ((λ i. ground (arith, require-Refuses s name p)), (λ i. absurd cc))
  perform-Refuses Member.shutdown s name p g h =
      ((λ i. ground (arith, require-Refuses s name p)), (λ i. absurd cc))
  perform-Refuses (Member.read n) s name p g h =
      ((λ i. ground (arith, require-Refuses s name p)), (λ i. absurd cc))
  perform-Refuses Member.get_peer s name p g h =
      ((λ i. ground (arith, require-Refuses s name p)), (λ i. absurd cc))
  perform-Refuses (Member.write bs) s name p g h =
      ((λ i. absurd cc), (λ i. ground (arith, write_loop-accepts (length bs) bs 0 p)))
  perform-Refuses (Member.flush a) s name p g h = absurd cc
  perform-Refuses (Member.set a) s name p g h = absurd cc
  perform-Refuses (Member.get a) s name p g h = absurd cc
