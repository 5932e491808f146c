-- ===== src/Socket/Transfer.antt =====
-- `Read`, `Write`, `Flush` and `getPeer` of CSocket.cpp. A buffer is the list of its bytes; it has
-- fewer than 2 ^ 31, so that the `int` of a count is exact.
use epics_tcl.Prelude.{ℕ, zero, suc, ◌+◌, String, none, some, List, [], ◌∷◌, length, if◌then◌else◌}
use epics_tcl.Prelude.Int.{pos, negsuc}
use epics_tcl.Socket.Os.{
  disconnected, connected, errno_error, connection_lost, epipe, enoprotoopt, other, Os,
}
use epics_tcl.Socket.Act.{Act, pure, raise, starve, ◌>>=◌, ◌>>◌, call_fd, look, set_state}
use epics_tcl.Socket.ByteOrder.{ntohs}
use epics_tcl.Socket.Service.{address_to_host_string}
use epics_tcl.Socket.Control.{require, open_socket}

-- `p += n`.
unfoldable pub drop : ℕ → List ℕ → List ℕ
drop zero bs = bs
drop (suc n) [] = []
drop (suc n) (b ∷ bs) = drop n bs

module _ (O : Os) where
  -- The end of a connection that the peer closed. The descriptor is the closed one until
  -- `OpenSocket` writes it.
  unfoldable pub lose_connection : {A : Type 0} → String → Act O A
  unfolding open_socket
  lose_connection text = do
    set_state disconnected
    call_fd O.shutdown
    call_fd O.close
    open_socket O
    raise (connection_lost text)

  -- The bytes that were read, at most as many as are asked for.
  unfoldable pub read : ℕ → Act O (List ℕ)
  unfolding require lose_connection
  read count = do
    require O connected "CSocket::Read()"
    transferred ← call_fd (λ fd. O.read fd count)
    elim transferred [
      | none ↦ set_state disconnected >> raise (errno_error "CSocket::Read failed read(2)")
      | some [] ↦ lose_connection "CSocket::Read: from read(2)"
      | some (b ∷ bs) ↦ pure (b ∷ bs)
    ]

  -- What follows a failed write(2), after `written` bytes.
  unfoldable pub write_failed : ℕ → Act O ℕ
  unfolding lose_connection
  write_failed (suc n) = pure (suc n)
  write_failed zero = do
    errno ← look O.errno
    elim errno [
      | epipe ↦ lose_connection "CSocket::Write - first write of loop"
      | enoprotoopt ↦ set_state disconnected >> raise (errno_error "CSocket::Write failed write(2)")
      | other ↦ set_state disconnected >> raise (errno_error "CSocket::Write failed write(2)")
    ]

  -- The loop, for the bytes that are left. No member tests the state before it.
  unfoldable pub write_loop : ℕ → List ℕ → ℕ → Act O ℕ
  unfolding write_failed
  write_loop fuel [] written = pure written
  write_loop zero (b ∷ bs) written = starve
  write_loop (suc fuel) (b ∷ bs) written = do
    n ← call_fd (λ fd. O.write fd (b ∷ bs))
    elim n [
      | pos zero ↦ write_failed written
      | pos (suc k) ↦ write_loop fuel (drop (suc k) (b ∷ bs)) (written + suc k)
      | negsuc k ↦ write_failed written
    ]

  unfoldable pub write : List ℕ → Act O ℕ
  unfolding write_loop
  write buffer = write_loop (length buffer) buffer 0

  -- The peer's port in the host's byte order, and its name.
  unfoldable pub get_peer : Act O (ℕ × String)
  unfolding require
  get_peer = do
    require O connected "CSocket::GetPeer"
    peer ← call_fd O.getpeername
    elim peer [
      | none ↦ raise (errno_error "CSocket::getPeer failed call to getpeername(2)")
      | some (address, port) ↦ do name ← address_to_host_string O address; pure (ntohs port, name)
    ]

  unfoldable pub flush : ℕ → Act O (Unit {0})
  unfolding read
  flush zero = starve
  flush (suc fuel) = do
    r ← call_fd O.poll
    elim r.result [
      | pos zero ↦ pure tt
      | negsuc k ↦ pure tt
      | pos (suc k) ↦ do
        (if r.pollin then (read 1 >> pure tt) else pure tt)
        (if r.pollhup then pure tt else flush fuel)
    ]
