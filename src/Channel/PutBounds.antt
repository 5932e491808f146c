-- ===== src/Channel/PutBounds.antt =====
-- What the vector assignments send.
use epics_tcl.Prelude.{
  sym, ◌∙◌, ltb, if◌then◌else◌, ℕ, zero, suc, ◌-◌, ◌≤◌, ◌<◌, ◌≡◌, refl, ap, ap₂, Bool, true, false,
  String, List, [], ◌∷◌, map, length, take, text_length, take_of_length-le, length-take, length-map,
  All, arith, nat_eq, Bool-cases, inl, inr,
}
use Prim.Native.Char.{code}
use epics_tcl.Prelude.Int.{ℤ}
use epics_tcl.Ca.{array_put_string, array_put_long, array_put_double, flush_io, Platform}
use epics_tcl.Channel.{Channel}
use epics_tcl.Channel.Put.{
  strncpy, clipped_count, assign_string, assign_int, assign_double, assign_strings, assign_ints,
  assign_doubles,
}
use native.Mathlib.Nat.{le_refl}

text_length-strncpy-le : (n : ℕ) (s : String) → text_length (strncpy n s) ≤ n
unfolding strncpy
text_length-strncpy-le zero s = omega arith
text_length-strncpy-le (suc n) String.[] = omega arith
text_length-strncpy-le (suc n) (String.◌∷◌ c s) = elim (Bool-cases (nat_eq (code c) 0)) [
  | inl nul ↦ rw nul (omega arith)
  | inr other ↦ rw other (omega (arith, text_length-strncpy-le n s))
]

-- A text with no NUL that a `dbr_string_t` can hold with its terminator.
abbrev pub FitsIn : ℕ → String → Type 0
FitsIn n String.[] = Unit
FitsIn zero (String.◌∷◌ c s) = ⊥
FitsIn (suc n) (String.◌∷◌ c s) = (nat_eq (code c) 0 ≡ false) × FitsIn n s

strncpy_of_FitsIn : (n : ℕ) (s : String) → FitsIn n s → strncpy n s ≡ s
unfolding strncpy
strncpy_of_FitsIn zero String.[] h = refl
strncpy_of_FitsIn zero (String.◌∷◌ c s) h = absurd h
strncpy_of_FitsIn (suc n) String.[] h = refl
strncpy_of_FitsIn (suc n) (String.◌∷◌ c s) h =
    rw h.0 (ap (String.◌∷◌ c) (strncpy_of_FitsIn n s h.1))

map-strncpy_of_FitsIn : (n : ℕ) (ss : List String) → All (FitsIn n) ss → map (strncpy n) ss ≡ ss
map-strncpy_of_FitsIn n [] h = refl
map-strncpy_of_FitsIn n (s ∷ ss) h =
    ap₂ ◌∷◌ (strncpy_of_FitsIn n s h.0) (map-strncpy_of_FitsIn n ss h.1)

All-map-strncpy :
    (n k : ℕ) (ss : List String) → n < k → All (λ s. text_length s < k) (map (strncpy n) ss)
All-map-strncpy n k [] h = tt
All-map-strncpy n k (s ∷ ss) h =
    (omega (arith, text_length-strncpy-le n s), All-map-strncpy n k ss h)

clipped_count-le : (e n : ℕ) → (clipped_count e n ≤ e) × (clipped_count e n ≤ n)
unfolding clipped_count
clipped_count-le e n = ground arith

clipped_count_of_le : (e n : ℕ) → n ≤ e → clipped_count e n ≡ n
unfolding clipped_count
clipped_count_of_le e n h = ground arith

-- The channel's count takes from a vector what it takes from its whole length on.
pub take-clipped_count {ℓ} :
    {A : Type ℓ} (e : ℕ) (xs : List A) → take (clipped_count e (length xs)) xs ≡ take e xs
unfolding clipped_count
take-clipped_count e xs = elim (Bool-cases (ltb e (length xs))) [
  | inl longer ↦ rw longer refl
  | inr fits ↦ rw fits (
      take_of_length-le (length xs) xs (le_refl _)
      ∙ sym (take_of_length-le e xs (ground (arith, fits))))
]

-- A C string ends before its first NUL.
abbrev pub until_nul : String → String
until_nul String.[] = String.[]
until_nul (String.◌∷◌ c s) =
    let rest = until_nul s in if nat_eq (code c) 0 then String.[] else String.◌∷◌ c rest

abbrev pub text_take : ℕ → String → String
text_take zero s = String.[]
text_take (suc n) String.[] = String.[]
text_take (suc n) (String.◌∷◌ c s) = String.◌∷◌ c (text_take n s)

strncpy_lem : (n : ℕ) (s : String) → strncpy n s ≡ text_take n (until_nul s)
unfolding strncpy
strncpy_lem zero s = refl
strncpy_lem (suc n) String.[] = refl
strncpy_lem (suc n) (String.◌∷◌ c s) = elim (Bool-cases (nat_eq (code c) 0)) [
  | inl nul ↦ rw nul refl
  | inr other ↦ rw (other, strncpy_lem n s) refl
]

pub map-strncpy :
    (n : ℕ) (ss : List String) → map (strncpy n) ss ≡ map (λ s. text_take n (until_nul s)) ss
map-strncpy n [] = refl
map-strncpy n (s ∷ ss) = ap₂ ◌∷◌ (strncpy_lem n s) (map-strncpy n ss)

module _ (c : Channel) (online : c.connected ≡ true) where
  -- On a connected channel, a vector of strings is sent as one array put to the channel: no more
  -- elements than the channel has, no more than were given, and each shorter than a
  -- `dbr_string_t`, so that its terminator fits.
  pub assign_strings_bounds :
      (p : Platform) (e : ℕ) (rhs : List String)
      → 0 < p.string_size
      → (xs : List String) × (assign_strings p e true rhs c
          ≡ array_put_string c.chid xs ∷ flush_io ∷ [])
        × (length xs ≤ e)
        × (length xs ≤ length rhs)
        × All (λ s. text_length s < p.string_size) xs
  unfolding assign_strings
  assign_strings_bounds p e rhs h =
      let n = clipped_count e (length rhs) in
      let xs = map (strncpy (p.string_size - 1)) (take n rhs) in
      let sent : length xs ≡ length (take n rhs) =
        length-map (take n rhs) (strncpy (p.string_size - 1)) in
      (
        xs,
        rw online,
        omega (arith, sent, length-take n rhs, clipped_count-le e (length rhs)),
        omega (arith, sent, length-take n rhs, clipped_count-le e (length rhs)),
        All-map-strncpy (p.string_size - 1) p.string_size (take n rhs) (omega arith),
      )

  -- On a connected channel, a vector that is no longer than the channel is sent whole and
  -- unchanged: strings if each fits a `dbr_string_t` with its terminator, integers and doubles
  -- always.
  pub assign_exact :
      (p : Platform) (e : ℕ) (texts : List String) (ints : List ℤ) (doubles : List ℕ)
      → length texts ≤ e
      → All (FitsIn (p.string_size - 1)) texts
      → length ints ≤ e
      → length doubles ≤ e
      → (assign_strings p e true texts c ≡ array_put_string c.chid texts ∷ flush_io ∷ [])
        × (assign_ints e true ints c ≡ array_put_long c.chid ints ∷ flush_io ∷ [])
        × (assign_doubles e true doubles c ≡ array_put_double c.chid doubles ∷ flush_io ∷ [])
  unfolding assign_strings assign_ints assign_doubles
  assign_exact p e texts ints doubles ht fit hi hd = (
    rw (
      online,
      clipped_count_of_le e (length texts) ht,
      take_of_length-le _ texts (le_refl _),
      map-strncpy_of_FitsIn _ texts fit,
    ),
    rw (online, clipped_count_of_le e (length ints) hi, take_of_length-le _ ints (le_refl _)),
    rw (online, clipped_count_of_le e (length doubles) hd, take_of_length-le _ doubles (le_refl _)),
  )

-- On a channel that is not connected no assignment calls channel access, whatever the value.
pub assign_offline :
    (c : Channel) (p : Platform) (e : ℕ) (allocated : Bool) (s : String) (i : ℤ) (d : ℕ)
    (texts : List String) (ints : List ℤ) (doubles : List ℕ)
    → c.connected ≡ false
    → (assign_string s c ≡ [])
      × (assign_int i c ≡ [])
      × (assign_double d c ≡ [])
      × (assign_strings p e allocated texts c ≡ [])
      × (assign_ints e allocated ints c ≡ [])
      × (assign_doubles e allocated doubles c ≡ [])
unfolding assign_string assign_int assign_double assign_strings assign_ints assign_doubles
assign_offline c p e allocated s i d texts ints doubles h = (rw h, rw h, rw h, rw h, rw h, rw h)
