-- ===== src/Socket/Act.antt =====
-- The members of a socket as actions: on the object, the class's static table of names and the
-- kernel, with an outcome. What was changed before a throw stays changed.
use epics_tcl.Prelude.{String, Bool, true, false, List}
use epics_tcl.Prelude.Int.{ℤ, pos, negsuc}
use epics_tcl.Socket.Os.{State, Error, Os}

-- `m_Fd`, `m_State`, the static `m_StateNames`, and the kernel's state.
pub record Process (O : Os) : Type 0 where
  pub fd : ℤ
  pub state : State
  pub names : List (State × String)
  pub kernel : O.Kernel

-- `out_of_fuel` is where the fuel of a loop did not last.
pub data Outcome (A : Type 0) : Type 0 where
  ok : A → Outcome A
  throw : Error → Outcome A
  out_of_fuel : Outcome A

abbrev pub Act : Os → Type 0 → Type 0
Act O A = Process O → Outcome A × Process O

abbrev pub negative : ℤ → Bool
negative (pos n) = false
negative (negsuc n) = true

module _ {O : Os} where
  abbrev pub pure : {A : Type 0} → A → Act O A
  pure a p = (ok a, p)

  abbrev pub raise : {A : Type 0} → Error → Act O A
  raise e p = (throw e, p)

  abbrev pub starve : {A : Type 0} → Act O A
  starve p = (out_of_fuel, p)

  abbrev pub and_then :
      {A B : Type 0} → Outcome A × Process O → (A → Act O B) → Outcome B × Process O
  and_then (ok a, p) f = f a p
  and_then (throw e, p) f = (throw e, p)
  and_then (out_of_fuel, p) f = (out_of_fuel, p)

  infixl 5 ◌>>=◌ ◌>>◌
  abbrev pub ◌>>=◌ : {A B : Type 0} → Act O A → (A → Act O B) → Act O B
  m >>= f = λ p. and_then (m p) f

  abbrev pub ◌>>◌ : {A B : Type 0} → Act O A → Act O B → Act O B
  m >> n = m >>= λ _. n

  abbrev pub raise_if : Bool → Error → Act O (Unit {0})
  raise_if true e p = (throw e, p)
  raise_if false e p = (ok tt, p)

  -- A system call.
  abbrev pub call : {A : Type 0} → (O.Kernel → A × O.Kernel) → Act O A
  call f p = let (a, k) = f p.kernel in (ok a, record p { kernel = k })

  -- A call on the socket's own descriptor.
  abbrev pub call_fd : {A : Type 0} → (ℤ → O.Kernel → A × O.Kernel) → Act O A
  call_fd f p = let (a, k) = f p.fd p.kernel in (ok a, record p { kernel = k })

  abbrev pub look : {A : Type 0} → (O.Kernel → A) → Act O A
  look f p = (ok (f p.kernel), p)

  abbrev pub set_state : State → Act O (Unit {0})
  set_state s p = (ok tt, record p { state = s })

  abbrev pub set_fd : ℤ → Act O (Unit {0})
  set_fd fd p = (ok tt, record p { fd = fd })
