-- ===== src/Converter/Loop.antt =====
-- The loop of the `getVector` members whose `convert` has no state: `count` elements from the
-- `i`-th on.
use epics_tcl.Prelude.{ℕ, zero, suc, ◌+◌, ◌≡◌, refl, ap, String, List, [], ◌∷◌, length}

unfoldable pub collect : (ℕ → String) → ℕ → ℕ → List String
collect convert zero i = []
collect convert (suc n) i = convert i ∷ collect convert n (i + 1)

pub length-collect : (convert : ℕ → String) (n i : ℕ) → length (collect convert n i) ≡ n
unfolding collect
length-collect convert zero i = refl
length-collect convert (suc n) i = ap suc (length-collect convert n (i + 1))
