-- ===== src/Monitor/Branches.antt =====
-- The tests of the members of CChannel that Monitor.Members has: a script that goes on as a test
-- tells.
use epics_tcl.Prelude.{◌≡◌, refl, Bool, true, false, Option, none, some, if◌then◌else◌}
use epics_tcl.Monitor.{Script, effect}

-- A script that goes on in one of two ways.
module _ {S : Type 0} (t : Script S) (s r : S) where
  pub effect-if :
      (b : Bool) (u : Script S)
      → (b ≡ true → effect t s ≡ r)
      → (b ≡ false → effect u s ≡ r)
      → effect (if b then t else u) s ≡ r
  effect-if true u h k = h refl
  effect-if false u h k = k refl

  pub effect-elim {ℓ} :
      {A : Type ℓ} (o : Option A) (u : A → Script S)
      → (o ≡ none → effect t s ≡ r)
      → ((a : A) → o ≡ some a → effect (u a) s ≡ r)
      → effect (elim o [ none ↦ t | some a ↦ u a ]) s ≡ r
  effect-elim none u h k = h refl
  effect-elim (some a) u h k = k a refl
