-- ===== src/Monitor.antt =====
-- The monitor of a channel: `CCriticalRegion` of CChannel.h over the mutex that the constructor of
-- CChannel makes, and the members of CChannel as they run on several threads, one access of the
-- channel at a time.
pub mod Threads
pub mod Brackets
pub mod Invariant
pub mod Members
pub mod Branches
pub mod Updating
pub mod Effects
pub mod Closing
pub mod Atomic
use epics_tcl.Prelude.{ℕ, zero, suc, ◌+◌, ◌<◌, ◌≡◌, ◌≢◌, Option, none, some}

-- The calls of the threads library, over an unknown mutex `M`: `pthread_mutex_lock` by a thread,
-- where `none` is that the caller waits, and `pthread_mutex_unlock`. `held` is how often a thread has
-- locked the mutex and not unlocked it.
pub record Mutex (M : Type 0) : Type 0 where
  pub fresh : M
  pub lock : ℕ → M → Option M
  pub unlock : ℕ → M → M
  pub held : M → ℕ → ℕ

-- What the library says of a recursive mutex, the type that the constructor asks for: a thread waits
-- only while another holds the mutex, and else holds it once more; an unlock gives one hold back.
pub record IsRecursive {M : Type 0} (x : Mutex M) : Type 0 where
  pub unheld : (i : ℕ) → x.held x.fresh i ≡ 0
  pub waits : (i : ℕ) (m : M) → x.lock i m ≡ none → (j : ℕ) × (j ≢ i) × (x.held m j ≢ 0)
  pub refuses : (i j : ℕ) (m m' : M) → x.lock i m ≡ some m' → x.held m j ≢ 0 → j ≡ i
  pub locks : (i : ℕ) (m m' : M) → x.lock i m ≡ some m' → x.held m' i ≡ x.held m i + 1
  pub locks_other : (i j : ℕ) (m m' : M) → x.lock i m ≡ some m' → i ≢ j → x.held m' j ≡ x.held m j
  pub unlocks : (i : ℕ) (m : M) → 0 < x.held m i → x.held (x.unlock i m) i + 1 ≡ x.held m i
  pub unlocks_other : (i j : ℕ) (m : M) → i ≢ j → x.held (x.unlock i m) j ≡ x.held m j

-- What a thread has yet to do of a member: `enter` and `leave` are the constructor and the destructor
-- of a `CCriticalRegion`, `access` is one access of the shared state, after which the member goes on
-- as what it found there tells.
pub data Script (S : Type 0) : Type 0 where
  over : Script S
  access : (S → S) → (S → Script S) → Script S
  enter : Script S → Script S
  leave : Script S → Script S

module _ {S : Type 0} where
  -- A script run to its end with no other thread between.
  abbrev pub effect : Script S → S → S
  effect over s = s
  effect (access f k) s = effect (k s) (f s)
  effect (enter t) s = effect t s
  effect (leave t) s = effect t s

  -- From the given number of holds, a script accesses the state only while it holds the monitor, and
  -- ends where it has given all back.
  abbrev pub Closes : ℕ → Script S → Type 0
  Closes zero over = Unit
  Closes zero (access f k) = ⊥
  Closes zero (enter t) = ⊥
  Closes zero (leave t) = ⊥
  Closes (suc d) over = ⊥
  Closes (suc d) (access f k) = (s : S) → Closes (suc d) (k s)
  Closes (suc d) (enter t) = Closes (suc (suc d)) t
  Closes (suc d) (leave t) = Closes d t
