-- ===== src/Tests/Monitors.antt =====
-- The theorems of the monitor at a recursive mutex of its own, and two threads at one channel.
use epics_tcl.Prelude.{
  ℕ, zero, suc, ◌+◌, ◌<◌, ◌≡◌, ◌≢◌, refl, Option, none, some, List, [], ◌∷◌, ◌++◌, nat_eq,
  nat_eq_iff, arith, if◌then◌else◌,
}
use epics_tcl.Channel
use epics_tcl.Monitor.{Mutex, IsRecursive, over}
use epics_tcl.Monitor.Threads.{
  System, Step, Reach, begin, later, enters, accesses, leaves, of_thread,
}
use epics_tcl.Monitor.Members.{Shared, Member, get_name, get_value, script}
use epics_tcl.Monitor.Atomic.{in_turn, shared-in_turn, working-moves}
use epics_tcl.Tests.{wide}

-- A recursive mutex: free, or held by a thread, and how often besides.
data Holder : Type 0 where
  free : Holder
  by : ℕ → ℕ → Holder

abbrev take : ℕ → Holder → Option Holder
take i free = some (by i 0)
take i (by j n) = if nat_eq j i then some (by i (suc n)) else none

abbrev give : ℕ → Holder → Holder
give i free = free
give i (by j zero) = if nat_eq j i then free else by j zero
give i (by j (suc n)) = if nat_eq j i then by j n else by j (suc n)

abbrev holds : Holder → ℕ → ℕ
holds free i = 0
holds (by j n) i = if nat_eq j i then suc n else 0

abbrev recursive : Mutex Holder
recursive = record { fresh = free; lock = take; unlock = give; held = holds }

waits_lem : (i : ℕ) (m : Holder) → take i m ≡ none → (j : ℕ) × (j ≢ i) × (holds m j ≢ 0)
waits_lem i free e = absurd (ground arith)
waits_lem i (by j n) e =
    (j, λ q. ground (arith, nat_eq_iff j i), λ q. ground (arith, nat_eq_iff j j))

refuses_lem : (i j : ℕ) (m m' : Holder) → take i m ≡ some m' → holds m j ≢ 0 → j ≡ i
refuses_lem i j free m' e h = absurd (h refl)
refuses_lem i j (by k n) m' e h = ground (arith, nat_eq_iff k i, nat_eq_iff k j)

locks_lem :
    (i j : ℕ) (m m' : Holder)
    → take i m ≡ some m'
    → holds m' j ≡ holds m j + (if nat_eq i j then 1 else 0)
locks_lem i j free m' e = ground arith
locks_lem i j (by k n) m' e = ground (arith, nat_eq_iff k i)

unlocks_lem : (i : ℕ) (m : Holder) → 0 < holds m i → holds (give i m) i + 1 ≡ holds m i
unlocks_lem i free h = absurd (omega (arith, h))
unlocks_lem i (by k zero) h = ground arith
unlocks_lem i (by k (suc n)) h = ground arith

unlocks_other_lem : (i j : ℕ) (m : Holder) → i ≢ j → holds (give i m) j ≡ holds m j
unlocks_other_lem i j free h = refl
unlocks_other_lem i j (by k zero) h = ground (arith, nat_eq_iff k i, nat_eq_iff k j)
unlocks_other_lem i j (by k (suc n)) h = ground (arith, nat_eq_iff k i, nat_eq_iff k j)

recursive-IsRecursive : IsRecursive recursive
recursive-IsRecursive = record {
  unheld = λ i. refl;
  waits = waits_lem;
  refuses = refuses_lem;
  locks = λ i m m' e. ground (arith, locks_lem i i m m' e, nat_eq_iff i i);
  locks_other = λ i j m m' e h. ground (arith, locks_lem i j m m' e, nat_eq_iff i j);
  unlocks = unlocks_lem;
  unlocks_other = unlocks_other_lem;
}

abbrev at_first : Shared
at_first = record { channel = Channel.new "ch"; calls = []; fired = []; answers = [] }

abbrev programs : ℕ → List Member
programs zero = get_name ∷ []
programs (suc zero) = get_value ∷ []
programs (suc (suc i)) = []

abbrev Reached : System Shared Member Holder → Type 0
Reached s = Reach recursive (script wide) at_first programs s

-- Thread 0 is inside `getName`.
one_inside : (s : System Shared Member Holder) × Reached s
one_inside = (_, later begin (enters 0 refl refl))

-- Thread 0 has run `getName`, and thread 1 then `getValue`.
both_done : (s : System Shared Member Holder) × Reached s
unfolding script one_inside
both_done = (
  _,
  later
      (later
        (later (later (later one_inside.1 (accesses 0 refl)) (leaves 0 refl)) (enters 1 refl refl))
        (accesses 1 refl))
      (leaves 1 refl),
)

outside : (i : ℕ) → (both_done.0.threads i).current ≡ over
unfolding both_done one_inside script
outside zero = refl
outside (suc zero) = refl
outside (suc (suc i)) = ground (arith, nat_eq_iff 0 (suc (suc i)), nat_eq_iff 1 (suc (suc i)))

shared-in_turn_example :
    (both_done.0.shared ≡ in_turn wide both_done.0.entered at_first)
    × ((i : ℕ) → of_thread i both_done.0.entered ++ (both_done.0.threads i).rest ≡ programs i)
shared-in_turn_example =
    shared-in_turn recursive recursive-IsRecursive wide at_first programs both_done.0 both_done.1
      outside

working : one_inside.0.threads 1 ≢ record { current = over; rest = [] }
unfolding one_inside
working e = cc

working-moves_example :
    (s' : System Shared Member Holder) × Step recursive (script wide) one_inside.0 s'
working-moves_example =
    working-moves recursive recursive-IsRecursive wide at_first programs one_inside.0 one_inside.1 1
      working
