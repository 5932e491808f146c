-- ===== src/Socket/Delivery.antt =====
-- `Write` of CSocket.cpp: that its loop ends, and which bytes it has sent.
use epics_tcl.Prelude.{
  ℕ, zero, suc, ◌+◌, ◌-◌, ◌≤◌, ◌<◌, ◌≡◌, ◌⊎◌, refl, sym, ap, ◌∙◌, arith, String, Bool, true, false,
  List, [], ◌∷◌, ◌++◌, length, take, inl, inr,
}
use epics_tcl.Prelude.Int.{ℤ, pos, negsuc}
use epics_tcl.Socket.Os.{disconnected, Os}
use epics_tcl.Socket.Act.{Process, Outcome, ok, throw, out_of_fuel}
use epics_tcl.Socket.Control.{open_socket}
use epics_tcl.Socket.Transfer.{drop, lose_connection, write_failed, write_loop, write}
use epics_tcl.Socket.Moves.{count-cases, lose_connection-state}

length-drop : (n : ℕ) (bs : List ℕ) → length (drop n bs) ≡ length bs - n
unfolding drop
length-drop zero bs = omega arith
length-drop (suc n) [] = omega arith
length-drop (suc n) (b ∷ bs) = omega (arith, length-drop n bs)

take-drop :
    (n m : ℕ) (bs : List ℕ) → n ≤ length bs → take n bs ++ take m (drop n bs) ≡ take (n + m) bs
unfolding drop
take-drop zero m bs h = let e : m ≡ 0 + m = omega arith in ap (λ i. take i bs) e
take-drop (suc n) m [] h = absurd (omega (arith, h))
take-drop (suc n) m (b ∷ bs) h =
    let e : suc (n + m) ≡ suc n + m = omega arith in
    ap (λ rest. b ∷ rest) (take-drop n m bs (omega (arith, h))) ∙ ap (λ i. take i (b ∷ bs)) e

pub append-nil : (xs : List ℕ) → xs ++ [] ≡ xs
append-nil [] = refl
append-nil (x ∷ xs) = ap (λ rest. x ∷ rest) (append-nil xs)

append_assoc : (xs ys zs : List ℕ) → (xs ++ ys) ++ zs ≡ xs ++ (ys ++ zs)
append_assoc [] ys zs = refl
append_assoc (x ∷ xs) ys zs = ap (λ rest. x ∷ rest) (append_assoc xs ys zs)

-- The documented behaviour of the calls: `sent` are the bytes that the kernel took over. write(2)
-- takes a front of the buffer over and returns its length, or fails and takes none.
pub record Wire (O : Os) : Type 0 where
  pub sent : O.Kernel → List ℕ
  pub takes :
      (fd : ℤ) (bs : List ℕ) (k : O.Kernel) (n : ℕ)
      → (O.write fd bs k).0 ≡ pos n
      → (n ≤ length bs) × (sent (O.write fd bs k).1 ≡ sent k ++ take n bs)
  pub takes_none :
      (fd : ℤ) (bs : List ℕ) (k : O.Kernel) (n : ℕ)
      → (O.write fd bs k).0 ≡ negsuc n
      → sent (O.write fd bs k).1 ≡ sent k
  pub shutdown_keeps : (fd : ℤ) (k : O.Kernel) → sent (O.shutdown fd k).1 ≡ sent k
  pub close_keeps : (fd : ℤ) (k : O.Kernel) → sent (O.close fd k).1 ≡ sent k
  pub socket_keeps : (n : ℕ) (k : O.Kernel) → sent (O.socket n k).1 ≡ sent k
  pub database_keeps : (k : O.Kernel) → sent (O.getprotobyname k).1 ≡ sent k

abbrev pub is_throw : {A : Type 0} → Outcome A → Bool
is_throw (ok a) = false
is_throw (throw e) = true
is_throw out_of_fuel = false

abbrev pub is_starved : {A : Type 0} → Outcome A → Bool
is_starved (ok a) = false
is_starved (throw e) = false
is_starved out_of_fuel = true

module _ (O : Os) where
  open_socket-never_starves : (p : Process O) → is_starved (open_socket O p).0 ≡ false
  unfolding open_socket
  open_socket-never_starves p = ground arith

  pub lose_connection-throws :
      (A : Type 0) (text : String) (p : Process O)
      → is_throw (lose_connection O {A = A} text p).0 ≡ true
  unfolding lose_connection
  lose_connection-throws A text p = ground (arith, open_socket-never_starves _)

module _ {O : Os} (W : Wire O) where
  abbrev pub on_wire : Process O → List ℕ
  on_wire p = W.sent p.kernel

  open_socket-wire : (p : Process O) → on_wire (open_socket O p).1 ≡ on_wire p
  unfolding open_socket
  open_socket-wire p = grind (arith, W.database_keeps, W.socket_keeps)

  lose_connection-wire :
      (text : String) (p : Process O) → on_wire (lose_connection O {A = ℕ} text p).1 ≡ on_wire p
  unfolding lose_connection
  lose_connection-wire text p = grind (arith, W.shutdown_keeps, W.close_keeps, open_socket-wire)

  -- A loop that has `bs` to send and `written` bytes behind it ends with a count, and a front of `bs` sent,
  -- or with an exception before the first byte.
  abbrev pub Ends : List ℕ → ℕ → Process O → Outcome ℕ × Process O → Type 0
  Ends bs written p r =
      ((n : ℕ) × ((r.0 ≡ ok (written + n))
          × ((0 < written + n) ⊎ (bs ≡ []))
          × (n ≤ length bs)
          × (on_wire r.1 ≡ on_wire p ++ take n bs)))
      ⊎ ((is_throw r.0 ≡ true)
          × (written ≡ 0)
          × (r.1.state ≡ disconnected)
          × (on_wire r.1 ≡ on_wire p))

  write_failed-Ends :
      (written : ℕ) (bs : List ℕ) (p q : Process O)
      → on_wire q ≡ on_wire p
      → Ends bs written p (write_failed O written q)
  unfolding write_failed
  write_failed-Ends (suc n) bs p q h =
      inl
        (0, (ap ok (omega arith), inl (omega arith), omega arith, h ∙ sym (append-nil (on_wire p))))
  write_failed-Ends zero bs p q h =
      let text : String = "CSocket::Write - first write of loop" in
      ground (
        arith,
        h,
        lose_connection-throws O ℕ text q,
        lose_connection-wire text q,
        lose_connection-state O ℕ text q,
      )

  -- A loop that goes on after a write(2) that took the front of the buffer.
  Ends-front :
      (front : ℕ) (bs : List ℕ) (written : ℕ) (p q : Process O) (r : Outcome ℕ × Process O)
      → suc front ≤ length bs
      → on_wire q ≡ on_wire p ++ take (suc front) bs
      → Ends (drop (suc front) bs) (written + suc front) q r
      → Ends bs written p r
  Ends-front front bs written p q r h w (inl (n, (e, more, few, onto))) = inl (
    suc front + n,
    (
      e ∙ ap ok (omega arith),
      inl (omega arith),
      omega (arith, h, few, length-drop (suc front) bs),
      onto
          ∙ ap (λ s. s ++ take n (drop (suc front) bs)) w
          ∙ append_assoc (on_wire p) _ _
          ∙ ap (λ s. on_wire p ++ s) (take-drop (suc front) n bs h),
    ),
  )
  Ends-front front bs written p q r h w (inr (t, none_before, d, onto)) =
      absurd (omega (arith, none_before))

  write_loop-Ends :
      (fuel : ℕ) (bs : List ℕ) (written : ℕ) (p : Process O)
      → length bs ≤ fuel
      → Ends bs written p (write_loop O fuel bs written p)
  unfolding write_loop
  write_loop-Ends fuel [] written p h =
      inl (0, (ap ok (omega arith), inr refl, omega arith, sym (append-nil (on_wire p))))
  write_loop-Ends zero (b ∷ bs) written p h = absurd (omega (arith, h))
  write_loop-Ends (suc fuel) (b ∷ bs) written p h =
      let after = record p { kernel = (O.write p.fd (b ∷ bs) p.kernel).1 } in
      elim (count-cases (O.write p.fd (b ∷ bs) p.kernel).0) [
        | inl (k, e) ↦
            let (few, onto) = W.takes p.fd (b ∷ bs) p.kernel (suc k) e in
            let left = drop (suc k) (b ∷ bs) in
            rw e (
              Ends-front k (b ∷ bs) written p after (write_loop O fuel left (written + suc k) after)
                few onto
                (write_loop-Ends fuel left (written + suc k) after
                  (omega (arith, h, length-drop (suc k) (b ∷ bs)))))
        | inr (inl e) ↦ rw e (
            write_failed-Ends written (b ∷ bs) p after
              ((W.takes p.fd (b ∷ bs) p.kernel 0 e).1 ∙ append-nil _))
        | inr (inr (k, e)) ↦
            rw e
              (write_failed-Ends written (b ∷ bs) p after (W.takes_none p.fd (b ∷ bs) p.kernel k e))
      ]

  some_or_all : {bs : List ℕ} (n : ℕ) → (0 < 0 + n) ⊎ (bs ≡ []) → (0 < n) ⊎ (bs ≡ [])
  some_or_all n (inl h) = inl (omega arith)
  some_or_all n (inr h) = inr h

  -- The loop of a write ends, under calls that behave as documented. It returns a count that is at most the
  -- buffer's length, and 0 only for an empty buffer, and has sent that many bytes from the buffer's front, in order and no others; or it
  -- throws, and then it has sent nothing and the state is Disconnected.
  pub write_lem :
      (bs : List ℕ) (p : Process O)
      → ((n : ℕ) × (((write O bs p).0 ≡ ok n)
            × ((0 < n) ⊎ (bs ≡ []))
            × (n ≤ length bs)
            × (on_wire (write O bs p).1 ≡ on_wire p ++ take n bs)))
        ⊎ ((is_throw (write O bs p).0 ≡ true)
            × ((write O bs p).1.state ≡ disconnected)
            × (on_wire (write O bs p).1 ≡ on_wire p))
  unfolding write
  write_lem bs p = elim (write_loop-Ends (length bs) bs 0 p (omega arith)) [
    | inl (n, (e, more, few, onto)) ↦
        inl (n, (e ∙ ap ok (omega arith), some_or_all n more, few, onto))
    | inr (t, none_before, d, onto) ↦ inr (t, d, onto)
  ]
