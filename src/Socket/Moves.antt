-- ===== src/Socket/Moves.antt =====
-- How each member moves `m_State`, whatever its outcome: pieces that leave it, and members that
-- follow an arrow of the documented diagram.
use epics_tcl.Prelude.{
  ℕ, zero, suc, ◌+◌, ◌≡◌, refl, subst, ◌∙◌, length, ◌⊎◌, arith, String, Bool, true, List, [], ◌∷◌,
  Bool-cases, inl, inr,
}
use epics_tcl.Prelude.Int.{ℤ, pos, negsuc}
use epics_tcl.Socket.Os.{State, disconnected, bound, listening, connected, Os}
use epics_tcl.Socket.Act.{Process, Outcome, ok, throw, out_of_fuel, Act, and_then}
use epics_tcl.Socket.Names.{same_state, same_state_iff}
use epics_tcl.Socket.Service.{service, address_to_host_string}
use epics_tcl.Socket.Control.{
  require, open_socket, connect, resolve, connect_host, bind, listen, accept, shutdown,
}
use epics_tcl.Socket.Transfer.{
  lose_connection, read, write_failed, write_loop, write, get_peer, flush, drop,
}

-- The arrows of the documented diagram, and staying.
abbrev pub may_become : State → State → Bool
may_become disconnected connected = true
may_become disconnected bound = true
may_become bound listening = true
may_become connected disconnected = true
may_become s t = same_state s t

pub may_become-same : (s : State) → may_become s s ≡ true
may_become-same disconnected = refl
may_become-same bound = refl
may_become-same listening = refl
may_become-same connected = refl

-- It stays, or the connection is lost.
abbrev Falls : State → State → Type 0
Falls s t = (t ≡ s) ⊎ ((s ≡ connected) × (t ≡ disconnected))

Falls-moves : (s t : State) → Falls s t → may_become s t ≡ true
Falls-moves s t f = ground (arith, may_become-same s)

pub count-cases : (z : ℤ) → ((k : ℕ) × (z ≡ pos (suc k))) ⊎ (z ≡ pos 0) ⊎ ((k : ℕ) × (z ≡ negsuc k))
count-cases (pos zero) = inr (inl refl)
count-cases (pos (suc k)) = inl (k, refl)
count-cases (negsuc k) = inr (inr (k, refl))

module _ (O : Os) where
  pub open_socket-state : (p : Process O) → (open_socket O p).1.state ≡ p.state
  unfolding open_socket
  open_socket-state p = ground arith

  service-state : (name : String) (p : Process O) → (service O name p).1.state ≡ p.state
  unfolding service
  service-state name p = ground arith

  resolve-state : (host : String) (p : Process O) → (resolve O host p).1.state ≡ p.state
  unfolding resolve
  resolve-state host p = ground arith

  pub lose_connection-state :
      (A : Type 0) (text : String) (p : Process O)
      → (lose_connection O {A = A} text p).1.state ≡ disconnected
  unfolding lose_connection
  lose_connection-state A text p = ground (arith, open_socket-state _)

  pub connect-moves :
      (address port : ℕ) (p : Process O)
      → may_become p.state (connect O address port p).1.state ≡ true
  unfolding connect require
  connect-moves address port p = ground arith

  pub listen-moves :
      (backlog : ℕ) (p : Process O) → may_become p.state (listen O backlog p).1.state ≡ true
  unfolding listen require
  listen-moves backlog p = ground arith

  pub shutdown-moves : (p : Process O) → may_become p.state (shutdown O p).1.state ≡ true
  unfolding shutdown require
  shutdown-moves p = ground (arith, open_socket-state _)

  pub bind-moves :
      (name : String) (p : Process O) → may_become p.state (bind O name p).1.state ≡ true
  unfolding bind require
  bind-moves name p = ground (arith, service-state name p)

  pub accept-moves : (p : Process O) → may_become p.state (accept O p).1.state ≡ true
  unfolding accept require address_to_host_string
  accept-moves p = ground arith

  pub read-moves : (count : ℕ) (p : Process O) → may_become p.state (read O count p).1.state ≡ true
  unfolding read require
  read-moves count p = ground (arith, lose_connection-state _ _ _)

  pub get_peer-moves : (p : Process O) → may_become p.state (get_peer O p).1.state ≡ true
  unfolding get_peer require address_to_host_string
  get_peer-moves p = ground arith

  -- An action after one that leaves the state.
  and_then-moves :
      {A : Type 0} (s : State) (r : Outcome A × Process O) (f : A → Act O (Unit {0}))
      → r.1.state ≡ s
      → ((a : A) (q : Process O) → q.state ≡ s → may_become s (f a q).1.state ≡ true)
      → may_become s (and_then r f).1.state ≡ true
  and_then-moves s (ok a, q) f e h = h a q e
  and_then-moves s (throw x, q) f e h = rw e (may_become-same s)
  and_then-moves s (out_of_fuel, q) f e h = rw e (may_become-same s)

  connect_from :
      (s : State) (address port : ℕ) (q : Process O)
      → q.state ≡ s
      → may_become s (connect O address port q).1.state ≡ true
  connect_from s address port q e =
      subst (λ t. may_become t (connect O address port q).1.state ≡ true) e
        (connect-moves address port q)

  pub connect_host-moves :
      (host name : String) (p : Process O)
      → may_become p.state (connect_host O host name p).1.state ≡ true
  unfolding connect_host require
  connect_host-moves host name p = elim (Bool-cases (same_state p.state disconnected)) [
    | inl e ↦ rw e (
        and_then-moves p.state (resolve O host p) _ (resolve-state host p) (λ address q at.
          and_then-moves p.state (service O name q) _ (service-state name q ∙ at)
            (λ port. connect_from p.state _ _)))
    | inr e ↦ rw e (may_become-same p.state)
  ]

  read-Falls : (p : Process O) → Falls p.state (read O 1 p).1.state
  unfolding read require
  read-Falls p = ground (arith, lose_connection-state _ _ _, same_state_iff p.state connected)

  flush-Falls : (fuel : ℕ) (p : Process O) → Falls p.state (flush O fuel p).1.state
  unfolding flush
  flush-Falls zero p = inl refl
  flush-Falls (suc fuel) p =
      let polled = record p { kernel = (O.poll p.fd p.kernel).1 } in
      ground
        (arith, read-Falls polled, flush-Falls fuel polled, flush-Falls fuel (read O 1 polled).1)

  pub flush-moves : (fuel : ℕ) (p : Process O) → may_become p.state (flush O fuel p).1.state ≡ true
  flush-moves fuel p = Falls-moves p.state (flush O fuel p).1.state (flush-Falls fuel p)

  write_failed-state :
      (n : ℕ) (p : Process O)
      → ((write_failed O n p).1.state ≡ p.state) ⊎ ((write_failed O n p).1.state ≡ disconnected)
  unfolding write_failed
  write_failed-state n p = ground (arith, lose_connection-state _ _ _)

  write_loop-state :
      (fuel : ℕ) (bs : List ℕ) (n : ℕ) (p : Process O)
      → ((write_loop O fuel bs n p).1.state ≡ p.state)
        ⊎ ((write_loop O fuel bs n p).1.state ≡ disconnected)
  unfolding write_loop
  write_loop-state fuel [] n p = inl refl
  write_loop-state zero (b ∷ bs) n p = inl refl
  write_loop-state (suc fuel) (b ∷ bs) n p =
      let after = record p { kernel = (O.write p.fd (b ∷ bs) p.kernel).1 } in
      elim (count-cases (O.write p.fd (b ∷ bs) p.kernel).0) [
        | inl (k, e) ↦ rw e (write_loop-state fuel (drop (suc k) (b ∷ bs)) (n + suc k) after)
        | inr (inl e) ↦ rw e (write_failed-state n after)
        | inr (inr (k, e)) ↦ rw e (write_failed-state n after)
      ]

  -- It has no guard, so it may end any state.
  pub write-state :
      (bs : List ℕ) (p : Process O)
      → ((write O bs p).1.state ≡ p.state) ⊎ ((write O bs p).1.state ≡ disconnected)
  unfolding write
  write-state bs p = write_loop-state (length bs) bs 0 p
