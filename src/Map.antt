-- ===== src/Map.antt =====
-- `std::map`, and the heap of live objects, as association lists: a key is bound at most once
-- however the lists are built, since `insert` replaces and `erase` removes every binding.
pub mod Sums
use epics_tcl.Prelude.{
  ℕ, ◌≡◌, ◌↔◌, String, Bool, true, false, Option, none, some, List, [], ◌∷◌, ◌==◌, eq_iff, nat_eq,
  nat_eq_iff, All, Bool-cases, inl, inr, subst, refl, arith, if◌then◌else◌,
}

pub record Key {ℓ} (A : Type ℓ) : Type ℓ where
  pub same_key : A → A → Bool
  pub same_key_iff : (a b : A) → (same_key a b ≡ true) ↔ (a ≡ b)

instance abbrev pub string_eq : Key String
string_eq = record { same_key = ◌==◌; same_key_iff = eq_iff }

instance abbrev pub address_eq : Key ℕ
address_eq = record { same_key = nat_eq; same_key_iff = nat_eq_iff }

abbrev pub Map {ℓ κ} : Type ℓ → Type κ → Type (ℓ ⊔ κ)
Map K V = List (K × V)

module _ {ℓ κ} {K : Type ℓ} {V : Type κ} ⦃e : Key K⦄ where
  unfoldable pub lookup : K → Map K V → Option V
  lookup k [] = none
  lookup k ((j, v) ∷ m) = if e.same_key j k then some v else lookup k m

  unfoldable pub erase : K → Map K V → Map K V
  erase k [] = []
  erase k ((j, v) ∷ m) = let rest = erase k m in if e.same_key j k then rest else (j, v) ∷ rest

  unfoldable pub insert : K → V → Map K V → Map K V
  unfolding erase
  insert k v m = (k, v) ∷ erase k m

  pub lookup-erase :
      (k j : K) (m : Map K V) → lookup j (erase k m) ≡ (if e.same_key k j then none else lookup j m)
  unfolding lookup erase
  lookup-erase k j [] = ground arith
  lookup-erase k j ((i, v) ∷ m) =
      ground (arith, lookup-erase k j m, e.same_key_iff i k, e.same_key_iff i j, e.same_key_iff k j)

  pub lookup-insert :
      (k j : K) (v : V) (m : Map K V)
      → lookup j (insert k v m) ≡ (if e.same_key k j then some v else lookup j m)
  unfolding lookup insert
  lookup-insert k j v m = ground (arith, lookup-erase k j m)

module _ {ℓ} {K V : Type ℓ} ⦃e : Key K⦄ where
  -- What holds of every binding holds of one that is found.
  pub All-lookup :
      (P : K × V → Type ℓ) (k : K) {v : V} (m : Map K V) → All P m → lookup k m ≡ some v → P (k, v)
  unfolding lookup
  All-lookup P k [] h f = absurd (ground arith)
  All-lookup P k {v} ((j, u) ∷ m) h f = elim (Bool-cases (e.same_key j k)) [
    | inl hit ↦
        let j≡k : j ≡ k = (e.same_key_iff j k).0 hit in
        let u≡v : u ≡ v = ground arith in subst (λ x. P (x, v)) j≡k (subst (λ x. P (j, x)) u≡v h.0)
    | inr miss ↦ All-lookup P k m h.1 (ground arith)
  ]

  pub All-map :
      (P Q : K × V → Type ℓ) → ((x : K × V) → P x → Q x) → (m : Map K V) → All P m → All Q m
  All-map P Q f [] h = tt
  All-map P Q f (x ∷ m) h = (f x h.0, All-map P Q f m h.1)

  -- What is left after an erasure keeps what held of it, and has other keys.
  pub All-erase :
      (P : K × V → Type ℓ) (k : K) (m : Map K V)
      → All P m
      → All (λ x. P x × (e.same_key x.0 k ≡ false)) (erase k m)
  unfolding erase
  All-erase P k [] h = tt
  All-erase P k ((j, v) ∷ m) h = elim (Bool-cases (e.same_key j k)) [
    | inl hit ↦ rw hit (All-erase P k m h.1)
    | inr miss ↦ rw miss ((h.0, miss), All-erase P k m h.1)
  ]

  pub All-insert :
      (P : K × V → Type ℓ) (k : K) (v : V) (m : Map K V) → P (k, v) → All P m → All P (insert k v m)
  unfolding insert
  All-insert P k v m hv h = (hv, All-map _ P (λ x y. y.0) (erase k m) (All-erase P k m h))

  erase-erase : (k : K) (m : Map K V) → erase k (erase k m) ≡ erase k m
  unfolding erase
  erase-erase k [] = refl
  erase-erase k ((j, v) ∷ m) = ground (arith, erase-erase k m)

  pub erase-insert : (k : K) (v : V) (m : Map K V) → erase k (insert k v m) ≡ erase k m
  unfolding erase insert
  erase-insert k v m = rw ((e.same_key_iff k k).1 refl, erase-erase k m)

  -- Of two bindings that are put one after the other, the first leaves nothing.
  pub insert-insert : (k : K) (u v : V) (m : Map K V) → insert k v (insert k u m) ≡ insert k v m
  unfolding insert
  insert-insert k u v m = rw ((e.same_key_iff k k).1 refl, erase-erase k m)
