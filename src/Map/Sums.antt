-- ===== src/Map/Sums.antt =====
-- Sums over the values of a map in which no key is bound twice.
use epics_tcl.Prelude.{ℕ, ◌+◌, ◌≡◌, refl, none, some, [], ◌∷◌, Bool-cases, inl, inr, arith}
use epics_tcl.Map.{Key, Map, lookup, erase, insert, lookup-erase}

module _ {ℓ κ} {K : Type ℓ} {V : Type κ} ⦃e : Key K⦄ where
  -- No key is bound twice.
  abbrev pub IsDistinct : Map K V → Type κ
  IsDistinct [] = Unit
  IsDistinct ((k, v) ∷ m) = (lookup k m ≡ none) × IsDistinct m

  abbrev pub sum : (V → ℕ) → Map K V → ℕ
  sum f [] = 0
  sum f ((k, v) ∷ m) = f v + sum f m

  erase-absent : (k : K) (m : Map K V) → lookup k m ≡ none → erase k m ≡ m
  unfolding lookup erase
  erase-absent k [] h = refl
  erase-absent k ((j, v) ∷ m) h = ground (arith, erase-absent k m)

  pub IsDistinct-erase : (k : K) (m : Map K V) → IsDistinct m → IsDistinct (erase k m)
  unfolding erase
  IsDistinct-erase k [] d = tt
  IsDistinct-erase k ((j, v) ∷ m) d =
      let rest = IsDistinct-erase k m d.1 in
      elim (Bool-cases (e.same_key j k)) [
        | inl hit ↦ rw hit rest
        | inr miss ↦ rw miss ((ground (arith, lookup-erase k j m, d.0)), rest)
      ]

  pub IsDistinct-insert : (k : K) (v : V) (m : Map K V) → IsDistinct m → IsDistinct (insert k v m)
  unfolding insert
  IsDistinct-insert k v m d =
      ((ground (arith, lookup-erase k k m, e.same_key_iff k k)), IsDistinct-erase k m d)

  pub sum-erase :
      (f : V → ℕ) (k : K) (v : V) (m : Map K V)
      → IsDistinct m
      → lookup k m ≡ some v
      → sum f (erase k m) + f v ≡ sum f m
  unfolding lookup erase
  sum-erase f k v [] d h = absurd (ground arith)
  sum-erase f k v ((j, u) ∷ m) d h =
      ground (arith, sum-erase f k v m d.1, erase-absent j m d.0, e.same_key_iff j k)

  pub sum-replace :
      (f : V → ℕ) (k : K) (v v' : V) (m : Map K V)
      → IsDistinct m
      → lookup k m ≡ some v
      → sum f (insert k v' m) + f v ≡ sum f m + f v'
  unfolding insert
  sum-replace f k v v' m d h = omega (arith, sum-erase f k v m d h)

  pub sum-insert :
      (f : V → ℕ) (k : K) (v : V) (m : Map K V)
      → lookup k m ≡ none
      → sum f (insert k v m) ≡ sum f m + f v
  unfolding insert
  sum-insert f k v m h = rw (erase-absent k m h) (omega arith)
