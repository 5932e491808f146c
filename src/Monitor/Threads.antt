-- ===== src/Monitor/Threads.antt =====
-- Threads that run members of one object under its monitor, interleaved in any order.
use epics_tcl.Prelude.{ℕ, ◌≡◌, some, List, [], ◌∷◌, ◌++◌, nat_eq, if◌then◌else◌}
use epics_tcl.Monitor.{Mutex, Script, over, access, enter, leave, effect}

-- What a thread has to do: the rest of the member that it is in, and the members after it.
pub record Thread (S X : Type 0) : Type 0 where
  pub current : Script S
  pub rest : List X

abbrev pub assign {ℓ} : {A : Type ℓ} → (ℕ → A) → ℕ → A → ℕ → A
assign f i a j = if nat_eq i j then a else f j

-- `entered` is the history: which thread entered which member, in order.
pub record System (S X M : Type 0) : Type 0 where
  pub mutex : M
  pub shared : S
  pub threads : ℕ → Thread S X
  pub entered : List (ℕ × X)

module _ {S X M : Type 0} (x : Mutex M) (script : X → Script S) where
  -- A thread outside enters its next member; one inside enters the monitor again, leaves it once, or
  -- accesses the state.
  pub data Step (s : System S X M) : System S X M → Type 0 where
    enters :
        (i : ℕ) {a : X} {as' : List X} {m : M}
        → s.threads i ≡ record { current = over; rest = a ∷ as' }
        → x.lock i s.mutex ≡ some m
        → Step s (record {
          mutex = m;
          shared = s.shared;
          threads = assign s.threads i (record { current = script a; rest = as' });
          entered = s.entered ++ (i, a) ∷ [];
        })
    reenters :
        (i : ℕ) {t : Script S} {as' : List X} {m : M}
        → s.threads i ≡ record { current = enter t; rest = as' }
        → x.lock i s.mutex ≡ some m
        → Step s (record {
          mutex = m;
          shared = s.shared;
          threads = assign s.threads i (record { current = t; rest = as' });
          entered = s.entered;
        })
    leaves :
        (i : ℕ) {t : Script S} {as' : List X}
        → s.threads i ≡ record { current = leave t; rest = as' }
        → Step s (record {
          mutex = x.unlock i s.mutex;
          shared = s.shared;
          threads = assign s.threads i (record { current = t; rest = as' });
          entered = s.entered;
        })
    accesses :
        (i : ℕ) {f : S → S} {k : S → Script S} {as' : List X}
        → s.threads i ≡ record { current = access f k; rest = as' }
        → Step s (record {
          mutex = s.mutex;
          shared = f s.shared;
          threads = assign s.threads i (record { current = k s.shared; rest = as' });
          entered = s.entered;
        })

  pub data Reach (start : S) (programs : ℕ → List X) : System S X M → Type 0 where
    begin : Reach start programs (record {
      mutex = x.fresh;
      shared = start;
      threads = λ i. record { current = over; rest = programs i };
      entered = [];
    })
    later : {s t : System S X M} → Reach start programs s → Step s t → Reach start programs t

  -- The members of the history run whole, one after the other.
  abbrev pub replay : List (ℕ × X) → S → S
  replay [] s = s
  replay ((i, a) ∷ l) s = replay l (effect (script a) s)

abbrev pub of_thread : {X : Type 0} → ℕ → List (ℕ × X) → List X
of_thread i [] = []
of_thread i ((j, a) ∷ l) =
    let later_on = of_thread i l in if nat_eq j i then a ∷ later_on else later_on
