-- ===== src/Socket/Addresses.antt =====
-- `Connect(host, service)` of CSocket.cpp with a numeric address and a numeric port: what reaches
-- connect(2).
use epics_tcl.Prelude.{
  ℕ, ◌-◌, ◌%◌, ◌^◌, ◌<◌, ◌≡◌, refl, ap₂, ◌∙◌, arith, String, false, print_nat, if◌then◌else◌,
  nat_eq, inl, inr, Bool-cases,
}
use epics_tcl.Socket.Os.{disconnected, connected, Os, no_such_host, connection_failed}
use epics_tcl.Socket.Act.{Process, Outcome, ok, throw, negative}
use epics_tcl.Socket.ByteOrder.{htons, htonl, ntohs, ntohl, htons-ntohs, htonl-ntohl}
use epics_tcl.Socket.Service.{service}
use epics_tcl.Socket.Control.{require, resolve, connect, connect_host}
use epics_tcl.Socket.Ports.{scan_int-print_nat}

module _ (O : Os) where
  -- The port of a decimal text is the number without what 16 bits do not hold, and the network's databases
  -- are not asked.
  service-print_nat :
      (n : ℕ) (p : Process O) → service O (print_nat n) p ≡ (ok (htons (n % 2 ^ 16)), p)
  unfolding service
  service-print_nat n p = rw (service, scan_int-print_nat n) refl

  -- What a connection attempt with `address` and `port`, as they go to connect(2), gives.
  abbrev pub attempt : ℕ → ℕ → Process O → Outcome (Unit {0}) × Process O
  attempt address port p =
      let (r, k) = O.connect p.fd address port p.kernel in
      if negative r
      then (
        throw (connection_failed (O.inet_ntoa address) (print_nat (ntohs port))),
        record p { kernel = k },
      )
      else (ok tt, record p { state = connected; kernel = k })

  connect_lem :
      (a b : ℕ) (p : Process O)
      → p.state ≡ disconnected
      → connect O a b p ≡ attempt (htonl a) (htons b) p
  unfolding connect require
  connect_lem a b p h = ground (arith, h)

  resolve_lem :
      (host : String) (p : Process O)
      → O.inet_addr host < 2 ^ 32 - 1
      → resolve O host p ≡ (
          if O.wild_pointer p.kernel
          then (throw (no_such_host host), p)
          else (ok (O.inet_addr host), p))
  unfolding resolve
  resolve_lem host p small =
      let known : nat_eq (O.inet_addr host) (2 ^ 32 - 1) ≡ false = ground (arith, small) in
      rw known
        (elim (Bool-cases (O.wild_pointer p.kernel)) [ inl e ↦ rw e refl | inr e ↦ rw e refl ])

  require-passes :
      (name : String) (p : Process O)
      → p.state ≡ disconnected
      → require O disconnected name p ≡ (ok tt, p)
  unfolding require
  require-passes name p h = rw h refl

  htons-small : (n : ℕ) → htons n < 2 ^ 16
  unfolding htons
  htons-small n = omega arith

  -- A Disconnected socket that is asked to connect to a dotted address and to the decimal text of a port
  -- hands connect(2) that very address, and the port without what 16 bits do not hold, in network byte
  -- order, and is Connected where the call succeeds; but where the pointer without a value reads as NULL,
  -- it throws that there is no such host, and calls nothing.
  pub connect_host-numbers :
      (host : String) (port : ℕ) (p : Process O)
      → p.state ≡ disconnected
      → O.inet_addr host < 2 ^ 32 - 1
      → connect_host O host (print_nat port) p ≡ (
          if O.wild_pointer p.kernel
          then (throw (no_such_host host), p)
          else attempt (O.inet_addr host) (htons (port % 2 ^ 16)) p)
  unfolding connect_host
  connect_host-numbers host port p h small =
      let number = htons (port % 2 ^ 16) in
      let order : htons (ntohs number) ≡ number =
        htons-ntohs number (htons-small (port % 2 ^ 16)) in
      let same : htonl (ntohl (O.inet_addr host)) ≡ O.inet_addr host =
        htonl-ntohl _ (omega (arith, small)) in
      elim (Bool-cases (O.wild_pointer p.kernel)) [
        | inl e ↦ rw (require-passes "CSocket::Connect" p h, resolve_lem host p small, e) refl
        | inr e ↦
            rw
              (
                require-passes "CSocket::Connect" p h,
                resolve_lem host p small,
                e,
                service-print_nat port p,
              )
              (connect_lem (ntohl (O.inet_addr host)) (ntohs number) p h
                ∙ ap₂ (λ a b. attempt a b p) same order)
      ]
