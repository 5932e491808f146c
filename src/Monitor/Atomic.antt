-- ===== src/Monitor/Atomic.antt =====
-- Members that run at the same time on several threads have the effect of the
-- members one after the other, and they never block each other for good.
use epics_tcl.Prelude.{ℕ, ◌≡◌, ◌≢◌, refl, ap, ◌∙◌, List, [], ◌∷◌, ◌++◌, Option-cases, inl, inr}
use epics_tcl.Ca.{Platform}
use epics_tcl.Monitor.{Mutex, IsRecursive, Script, over, access, enter, leave, effect}
use epics_tcl.Monitor.Threads.{
  System, Thread, Step, Reach, of_thread, replay, enters, reenters, leaves, accesses,
}
use epics_tcl.Monitor.Invariant.{Inv, Reach-Inv}
use epics_tcl.Monitor.Members.{Shared, Member, script, apply}
use epics_tcl.Monitor.Effects.{effect-script}
use epics_tcl.Monitor.Closing.{script-Closes}
use epics_tcl.Monitor.Brackets.{over_of_Closes, held_of_over}

-- The members of a history, each in one step.
abbrev pub in_turn : Platform → List (ℕ × Member) → Shared → Shared
in_turn p [] s = s
in_turn p ((i, a) ∷ l) s = in_turn p l (apply p a s)

replay-in_turn :
    {M : Type 0} (x : Mutex M) (p : Platform) (l : List (ℕ × Member)) (s : Shared)
    → replay x (script p) l s ≡ in_turn p l s
replay-in_turn x p [] s = refl
replay-in_turn x p ((i, a) ∷ l) s =
    replay-in_turn x p l (effect (script p a) s) ∙ ap (in_turn p l) (effect-script p a s)

module _ {M : Type 0} (x : Mutex M) (law : IsRecursive x) (p : Platform) (start : Shared)
    (programs : ℕ → List Member) (s : System Shared Member M) where
  module _ (inv : Inv x (script p) start programs s) where
    held_of_inside : (i : ℕ) → (s.threads i).current ≢ over → x.held s.mutex i ≢ 0
    held_of_inside i h z =
        h (over_of_Closes (x.held s.mutex i) (s.threads i).current z (inv.brackets i))

    held_of_outside : (i : ℕ) → (s.threads i).current ≡ over → x.held s.mutex i ≡ 0
    held_of_outside i h = held_of_over (x.held s.mutex i) (s.threads i).current h (inv.brackets i)

    -- The thread that holds the monitor is never stopped, also where it enters it again.
    holder-moves :
        (i : ℕ) (t : Script Shared) (as' : List Member)
        → s.threads i ≡ record { current = t; rest = as' }
        → x.held s.mutex i ≢ 0
        → (s' : System Shared Member M) × Step x (script p) s s'
    holder-moves i over as' e h =
        absurd (h (held_of_outside i (ap (λ (th : Thread Shared Member). th.current) e)))
    holder-moves i (access f k) as' e h = (_, accesses i e)
    holder-moves i (leave t) as' e h = (_, leaves i e)
    holder-moves i (enter t) as' e h = elim (Option-cases (x.lock i s.mutex)) [
      | inl waiting ↦
          let (j, different, held) = law.waits i s.mutex waiting in
          absurd (different (inv.alone j i held h))
      | inr (m, locked) ↦ (_, reenters i e locked)
    ]

    thread-moves :
        (i : ℕ) (t : Script Shared) (as' : List Member)
        → s.threads i ≡ record { current = t; rest = as' }
        → s.threads i ≢ record { current = over; rest = [] }
        → (s' : System Shared Member M) × Step x (script p) s s'
    thread-moves i over [] e h = absurd (h e)
    thread-moves i over (a ∷ as') e h = elim (Option-cases (x.lock i s.mutex)) [
      | inl waiting ↦
          let (j, different, held) = law.waits i s.mutex waiting in
          holder-moves j (s.threads j).current (s.threads j).rest refl held
      | inr (m, locked) ↦ (_, enters i e locked)
    ]
    thread-moves i (access f k) as' e h = holder-moves i _ as' e (held_of_inside i (λ z. cc))
    thread-moves i (leave t) as' e h = holder-moves i _ as' e (held_of_inside i (λ z. cc))
    thread-moves i (enter t) as' e h = holder-moves i _ as' e (held_of_inside i (λ z. cc))

  module _ (r : Reach x (script p) start programs s) where
    reached-Inv : Inv x (script p) start programs s
    reached-Inv = Reach-Inv x (script p) start programs law (script-Closes p) r

    -- Under a recursive mutex, whenever no thread is inside a member of the channel, however the accesses
    -- of the threads were interleaved: the channel, the calls of channel access, the fired slots and the
    -- answers of the readers are those of whole members, as the model of CChannel has them, one after the
    -- other in the order in which they entered the monitor; and in that order, each thread's members
    -- come as its program has them.
    pub shared-in_turn :
        ((i : ℕ) → (s.threads i).current ≡ over)
        → (s.shared ≡ in_turn p s.entered start)
          × ((i : ℕ) → of_thread i s.entered ++ (s.threads i).rest ≡ programs i)
    shared-in_turn out = (
      reached-Inv.outside (λ i. held_of_outside reached-Inv i (out i))
          ∙ replay-in_turn x p s.entered start,
      reached-Inv.order,
    )

    -- Under a recursive mutex, as long as some thread has something left to do, some thread can take a
    -- step: the threads never wait for each other in a circle, and none for itself.
    pub working-moves :
        (i : ℕ)
        → s.threads i ≢ record { current = over; rest = [] }
        → (s' : System Shared Member M) × Step x (script p) s s'
    working-moves i h = thread-moves reached-Inv i (s.threads i).current (s.threads i).rest refl h
