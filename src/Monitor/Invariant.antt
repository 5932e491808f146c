-- ===== src/Monitor/Invariant.antt =====
-- What holds of every interleaving: the holder of the monitor is the one thread inside, and with the
-- rest of its member done, the state is the history's members run whole.
use mathlib.Core.List.{append-nil, append_assoc}
use epics_tcl.Prelude.{
  ℕ, ◌<◌, ◌≡◌, ◌≢◌, refl, sym, ap, ◌∙◌, subst, some, List, [], ◌∷◌, ◌++◌, nat_eq, nat_eq_iff,
  Bool-cases, inl, inr, arith, if◌then◌else◌,
}
use epics_tcl.Monitor.{Mutex, IsRecursive, Script, over, access, enter, leave, effect, Closes}
use epics_tcl.Monitor.Brackets.{
  effect-over, Closes-enter, Closes-leave, Closes-leave-inside, Closes-access, Closes-over,
}
use epics_tcl.Monitor.Threads.{
  Thread, System, Step, enters, reenters, leaves, accesses, Reach, begin, later, assign, replay,
  of_thread,
}

module _ {S X M : Type 0} (x : Mutex M) (script : X → Script S) (start : S)
    (programs : ℕ → List X) where
  pub record Inv (s : System S X M) : Type 0 where
    pub brackets : (i : ℕ) → Closes (x.held s.mutex i) (s.threads i).current
    pub alone : (i j : ℕ) → x.held s.mutex i ≢ 0 → x.held s.mutex j ≢ 0 → i ≡ j
    pub inside :
        (i : ℕ)
        → x.held s.mutex i ≢ 0
        → effect (s.threads i).current s.shared ≡ replay x script s.entered start
    pub outside : ((i : ℕ) → x.held s.mutex i ≡ 0) → s.shared ≡ replay x script s.entered start
    pub order : (i : ℕ) → of_thread i s.entered ++ (s.threads i).rest ≡ programs i

  replay-append :
      (i : ℕ) (a : X) (l : List (ℕ × X)) (s : S)
      → replay x script (l ++ (i, a) ∷ []) s ≡ effect (script a) (replay x script l s)
  replay-append i a [] s = refl
  replay-append i a ((j, b) ∷ l) s = replay-append i a l (effect (script b) s)

  of_thread-append :
      (j i : ℕ) (a : X) (l : List (ℕ × X))
      → of_thread j (l ++ (i, a) ∷ []) ≡ of_thread j l ++ (if nat_eq i j then a ∷ [] else [])
  of_thread-append j i a [] = refl
  of_thread-append j i a ((k, b) ∷ l) =
      let rest = of_thread-append j i a l in
      elim (Bool-cases (nat_eq k j)) [
        | inl hit ↦ rw hit (ap (λ t. b ∷ t) rest)
        | inr miss ↦ rw miss rest
      ]

  module _ (law : IsRecursive x) (closed : (a : X) → Closes 1 (script a)) where
    begin-Inv : Inv (record {
      mutex = x.fresh;
      shared = start;
      threads = λ i. record { current = over; rest = programs i };
      entered = [];
    })
    begin-Inv = record {
      brackets = λ i. rw (law.unheld i) tt;
      alone = λ i j hi hj. absurd (hi (law.unheld i));
      inside = λ i h. absurd (h (law.unheld i));
      outside = λ h. refl;
      order = λ i. refl;
    }

    module _ (s : System S X M) (inv : Inv s) (i : ℕ) where
      -- A move of thread `i` while no other holds the monitor.
      module _ (m : M) (shared : S) (th : Thread S X) (entered : List (ℕ × X))
          (others : (j : ℕ) → i ≢ j → x.held m j ≡ x.held s.mutex j)
          (only : (j : ℕ) → x.held s.mutex j ≢ 0 → j ≡ i)
          (brackets : Closes (x.held m i) th.current)
          (goes_on : effect th.current shared ≡ replay x script entered start)
          (order : (j : ℕ)
            → of_thread j entered ++ (assign s.threads i th j).rest ≡ programs j) where
        only_after : (j : ℕ) → x.held m j ≢ 0 → i ≡ j
        only_after j h = elim (Bool-cases (nat_eq i j)) [
          | inl hit ↦ (nat_eq_iff i j).0 hit
          | inr miss ↦
              let i≢j : i ≢ j = λ e. ground (arith, nat_eq_iff i j) in
              sym (only j (λ z. h (others j i≢j ∙ z)))
        ]

        moved : Inv (record {
          mutex = m;
          shared = shared;
          threads = assign s.threads i th;
          entered = entered;
        })
        moved = record {
          brackets = λ j. elim (Bool-cases (nat_eq i j)) [
            | inl hit ↦
                rw hit
                  (subst (λ k. Closes (x.held m k) th.current) ((nat_eq_iff i j).0 hit) brackets)
            | inr miss ↦
                let i≢j : i ≢ j = λ e. ground (arith, nat_eq_iff i j) in
                rw (miss, others j i≢j) (inv.brackets j)
          ];
          alone = λ j k hj hk. sym (only_after j hj) ∙ only_after k hk;
          inside = λ j h. rw ((nat_eq_iff i j).1 (only_after j h)) goes_on;
          outside = λ h. effect-over th.current (x.held m i) (h i) brackets shared ∙ goes_on;
          order = order;
        }

      -- What the thread has to do, as the invariant has it.
      module _ {t : Script S} {as' : List X}
          (e : s.threads i ≡ record { current = t; rest = as' }) where
        to_close : Closes (x.held s.mutex i) t
        to_close =
            subst (λ (th : Thread S X). Closes (x.held s.mutex i) th.current) e (inv.brackets i)

        to_do : 0 < x.held s.mutex i → effect t s.shared ≡ replay x script s.entered start
        to_do h =
            subst
              (λ (th : Thread S X). effect th.current s.shared ≡ replay x script s.entered start) e
              (inv.inside i (λ z. omega (arith, z)))

        own_order : of_thread i s.entered ++ as' ≡ programs i
        own_order =
            subst (λ (th : Thread S X). of_thread i s.entered ++ th.rest ≡ programs i) e
              (inv.order i)

        same_order :
            (u : Script S) (j : ℕ)
            → of_thread j s.entered
                ++ (assign s.threads i (record { current = u; rest = as' }) j).rest
              ≡ programs j
        same_order u j = elim (Bool-cases (nat_eq i j)) [
          | inl hit ↦ rw hit (
              subst (λ k. of_thread k s.entered ++ as' ≡ programs k) ((nat_eq_iff i j).0 hit)
                own_order)
          | inr miss ↦ rw miss (inv.order j)
        ]

        next_order :
            (a : X) (rest : List X)
            → as' ≡ a ∷ rest
            → (u : Script S) (j : ℕ)
            → of_thread j (s.entered ++ (i, a) ∷ [])
                ++ (assign s.threads i (record { current = u; rest = rest }) j).rest
              ≡ programs j
        next_order a rest q u j = elim (Bool-cases (nat_eq i j)) [
          | inl hit ↦ rw (of_thread-append j i a s.entered) (
              rw hit (
                let here =
                  subst (λ k. of_thread k s.entered ++ as' ≡ programs k) ((nat_eq_iff i j).0 hit)
                    own_order in
                append_assoc (of_thread j s.entered) (a ∷ []) rest
                ∙ ap (λ l. of_thread j s.entered ++ l) (sym q)
                ∙ here))
          | inr miss ↦ rw (of_thread-append j i a s.entered) (rw (miss, append-nil) (inv.order j))
        ]

      -- While a thread is inside, no other is.
      only_holder : 0 < x.held s.mutex i → (j : ℕ) → x.held s.mutex j ≢ 0 → j ≡ i
      only_holder h j k = inv.alone j i k (λ z. omega (arith, z))

      enters-Inv :
          (a : X) (as' : List X) (m : M)
          → s.threads i ≡ record { current = over; rest = a ∷ as' }
          → x.lock i s.mutex ≡ some m
          → Inv (record {
            mutex = m;
            shared = s.shared;
            threads = assign s.threads i (record { current = script a; rest = as' });
            entered = s.entered ++ (i, a) ∷ [];
          })
      enters-Inv a as' m e l =
          let none_held : x.held s.mutex i ≡ 0 = Closes-over S (x.held s.mutex i) (to_close e) in
          let all_out : (j : ℕ) → x.held s.mutex j ≡ 0 = λ j.
            elim (Bool-cases (nat_eq (x.held s.mutex j) 0)) [
              | inl zero_held ↦ (nat_eq_iff (x.held s.mutex j) 0).0 zero_held
              | inr some_held ↦
                  let j≡i : j ≡ i =
                    law.refuses i j s.mutex m l
                      (λ z. ground (arith, nat_eq_iff (x.held s.mutex j) 0)) in
                  ap (x.held s.mutex) j≡i ∙ none_held
            ] in
          let first : x.held m i ≡ 1 = omega (arith, law.locks i s.mutex m l, none_held) in
          moved m s.shared (record { current = script a; rest = as' }) (s.entered ++ (i, a) ∷ [])
            (λ j. law.locks_other i j s.mutex m l) (λ j. law.refuses i j s.mutex m l)
            (rw first (closed a))
            (ap (effect (script a)) (inv.outside all_out) ∙ sym (replay-append i a s.entered start))
            (next_order e a as' refl (script a))

      reenters-Inv :
          (t : Script S) (as' : List X) (m : M)
          → s.threads i ≡ record { current = enter t; rest = as' }
          → x.lock i s.mutex ≡ some m
          → Inv (record {
            mutex = m;
            shared = s.shared;
            threads = assign s.threads i (record { current = t; rest = as' });
            entered = s.entered;
          })
      reenters-Inv t as' m e l =
          let (busy, next) =
            Closes-enter (x.held s.mutex i) (x.held m i) t (law.locks i s.mutex m l) (to_close e) in
          moved m s.shared (record { current = t; rest = as' }) s.entered
            (λ j. law.locks_other i j s.mutex m l) (λ j. law.refuses i j s.mutex m l) next
            (to_do e busy) (same_order e t)

      leaves-Inv :
          (t : Script S) (as' : List X)
          → s.threads i ≡ record { current = leave t; rest = as' }
          → Inv (record {
            mutex = x.unlock i s.mutex;
            shared = s.shared;
            threads = assign s.threads i (record { current = t; rest = as' });
            entered = s.entered;
          })
      leaves-Inv t as' e =
          let busy = Closes-leave-inside (x.held s.mutex i) t (to_close e) in
          moved (x.unlock i s.mutex) s.shared (record { current = t; rest = as' }) s.entered
            (λ j. law.unlocks_other i j s.mutex) (only_holder busy)
            (Closes-leave (x.held s.mutex i) _ t (law.unlocks i s.mutex busy) (to_close e))
            (to_do e busy) (same_order e t)

      accesses-Inv :
          (f : S → S) (k : S → Script S) (as' : List X)
          → s.threads i ≡ record { current = access f k; rest = as' }
          → Inv (record {
            mutex = s.mutex;
            shared = f s.shared;
            threads = assign s.threads i (record { current = k s.shared; rest = as' });
            entered = s.entered;
          })
      accesses-Inv f k as' e =
          let (busy, next) = Closes-access (x.held s.mutex i) f k (to_close e) s.shared in
          moved s.mutex (f s.shared) (record { current = k s.shared; rest = as' }) s.entered
            (λ j different. refl) (only_holder busy) next (to_do e busy) (same_order e (k s.shared))

    Step-Inv : {s s' : System S X M} → Step x script s s' → Inv s → Inv s'
    Step-Inv {s} (enters i {a} {as'} {m} e l) inv = enters-Inv s inv i a as' m e l
    Step-Inv {s} (reenters i {t} {as'} {m} e l) inv = reenters-Inv s inv i t as' m e l
    Step-Inv {s} (leaves i {t} {as'} e) inv = leaves-Inv s inv i t as' e
    Step-Inv {s} (accesses i {f} {k} {as'} e) inv = accesses-Inv s inv i f k as' e

    pub Reach-Inv : {s : System S X M} → Reach x script start programs s → Inv s
    Reach-Inv begin = begin-Inv
    Reach-Inv (later r step) = Step-Inv step (Reach-Inv r)
