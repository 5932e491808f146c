-- ===== src/Monitor/Brackets.antt =====
-- Scripts whose accesses stand between entering and leaving.
use epics_tcl.Prelude.{ℕ, zero, suc, ◌+◌, ◌<◌, ◌≡◌, refl, subst, arith}
use epics_tcl.Monitor.{Script, over, access, enter, leave, effect, Closes}

module _ {S : Type 0} where
  -- Without a hold nothing is left.
  pub effect-over : (t : Script S) (n : ℕ) → n ≡ 0 → Closes n t → (s : S) → s ≡ effect t s
  effect-over over n e h s = refl
  effect-over (access f k) n e h s = absurd (subst (λ n. Closes n (access f k)) e h)
  effect-over (enter t) n e h s = absurd (subst (λ n. Closes n (enter t)) e h)
  effect-over (leave t) n e h s = absurd (subst (λ n. Closes n (leave t)) e h)

  pub Closes-enter :
      (n n' : ℕ) (t : Script S) → n' ≡ n + 1 → Closes n (enter t) → (0 < n) × Closes n' t
  Closes-enter zero n' t e h = absurd h
  Closes-enter (suc d) n' t e h =
      let same : suc (suc d) ≡ n' = omega (arith, e) in
      (omega arith, subst (λ n. Closes n t) same h)

  pub Closes-leave : (n n' : ℕ) (t : Script S) → n' + 1 ≡ n → Closes n (leave t) → Closes n' t
  Closes-leave zero n' t e h = absurd h
  Closes-leave (suc d) n' t e h =
      let same : d ≡ n' = omega (arith, e) in subst (λ n. Closes n t) same h

  pub Closes-leave-inside : (n : ℕ) (t : Script S) → Closes n (leave t) → 0 < n
  Closes-leave-inside zero t h = absurd h
  Closes-leave-inside (suc d) t h = omega arith

  pub Closes-access :
      (n : ℕ) (f : S → S) (k : S → Script S)
      → Closes n (access f k)
      → (s : S) → (0 < n) × Closes n (k s)
  Closes-access zero f k h s = absurd h
  Closes-access (suc d) f k h s = (omega arith, h s)

  pub over_of_Closes : (n : ℕ) (t : Script S) → n ≡ 0 → Closes n t → t ≡ over
  over_of_Closes n over e h = refl
  over_of_Closes n (access f k) e h = absurd (subst (λ n. Closes n (access f k)) e h)
  over_of_Closes n (enter t) e h = absurd (subst (λ n. Closes n (enter t)) e h)
  over_of_Closes n (leave t) e h = absurd (subst (λ n. Closes n (leave t)) e h)

  pub held_of_over : (n : ℕ) (t : Script S) → t ≡ over → Closes n t → n ≡ 0
  held_of_over zero t e h = refl
  held_of_over (suc n) t e h = absurd (subst (Closes (suc n)) e h)

pub Closes-over : (S : Type 0) (n : ℕ) → Closes {S = S} n over → n ≡ 0
Closes-over S zero h = refl
Closes-over S (suc d) h = absurd h
