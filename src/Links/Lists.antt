-- ===== src/Links/Lists.antt =====
-- The list of linked variables under the operations on it.
use epics_tcl.Prelude.{
  ℕ, ◌^◌, ◌<◌, ◌≡◌, refl, String, true, false, ◌||◌, none, some, is_some, List, [], ◌∷◌, ◌++◌, ◌==◌,
  eq_iff, is_empty, All, Bool-cases, inl, inr, arith, if◌then◌else◌,
}
use epics_tcl.Variable.{Variable}
use epics_tcl.Command.{VariableInfo, find}
use epics_tcl.Links.{modify, remove}

-- No variable has two entries.
abbrev pub IsDistinct : List VariableInfo → Type 0
IsDistinct [] = Unit
IsDistinct (i ∷ is) = (find i.varname is ≡ none) × IsDistinct is

-- An entry keeps its variable's name, its channel, and a count that fits its type.
pub record IsEntry (self : ℕ) (i : VariableInfo) : Type 0 where
  pub named : i.linked_var.name ≡ i.varname
  pub owned : i.linked_var.channel ≡ self
  pub fits : i.linked_var.reference_count < 2 ^ 32

pub find-name :
    (v : String) (is : List VariableInfo) {i : VariableInfo} → find v is ≡ some i → i.varname ≡ v
unfolding find
find-name v [] h = cc
find-name v (j ∷ is) {i} h = ground (arith, find-name v is {i = i}, eq_iff j.varname v)

pub find-append :
    (v : String) (is : List VariableInfo) (j : VariableInfo)
    → is_some (find v (is ++ j ∷ [])) ≡ (is_some (find v is) || j.varname == v)
unfolding find
find-append v [] j = ground arith
find-append v (i ∷ is) j = ground (arith, find-append v is j)

pub find-none-append :
    (v : String) (is : List VariableInfo) (j : VariableInfo)
    → find v is ≡ none
    → (j.varname == v) ≡ false
    → find v (is ++ j ∷ []) ≡ none
unfolding find
find-none-append v [] j h o = rw o
find-none-append v (i ∷ is) j h o = ground (arith, find-none-append v is j)

pub find-append_new :
    (v : String) (is : List VariableInfo) (j : VariableInfo)
    → find v is ≡ none
    → (j.varname == v) ≡ true
    → find v (is ++ j ∷ []) ≡ some j
unfolding find
find-append_new v [] j h o = rw o
find-append_new v (i ∷ is) j h o = ground (arith, find-append_new v is j)

pub append-IsDistinct :
    (is : List VariableInfo) (j : VariableInfo)
    → find j.varname is ≡ none
    → IsDistinct is
    → IsDistinct (is ++ j ∷ [])
unfolding find
append-IsDistinct [] j h d = (refl, tt)
append-IsDistinct (i ∷ is) j h d = (
  find-none-append i.varname is j d.0
      (ground (arith, eq_iff i.varname j.varname, eq_iff j.varname i.varname)),
  append-IsDistinct is j (ground arith) d.1,
)

module _ (name : String) (f : Variable → Variable) where
  pub find-modify :
      (v : String) (is : List VariableInfo)
      → is_some (find v (modify name f is)) ≡ is_some (find v is)
  unfolding find modify
  find-modify v [] = refl
  find-modify v (i ∷ is) = ground (arith, find-modify v is)

  pub find-none-modify :
      (v : String) (is : List VariableInfo) → find v is ≡ none → find v (modify name f is) ≡ none
  unfolding find modify
  find-none-modify v [] h = refl
  find-none-modify v (i ∷ is) h = ground (arith, find-none-modify v is)

  pub find-modify_self :
      (is : List VariableInfo) (i : VariableInfo)
      → find name is ≡ some i
      → find name (modify name f is) ≡ some (record i { linked_var = f i.linked_var })
  unfolding find modify
  find-modify_self [] i h = cc
  find-modify_self (j ∷ is) i h = ground (arith, find-modify_self is i)

  pub modify-IsDistinct : (is : List VariableInfo) → IsDistinct is → IsDistinct (modify name f is)
  unfolding modify
  modify-IsDistinct [] d = tt
  modify-IsDistinct (i ∷ is) d =
      ground (arith, modify-IsDistinct is d.1, find-none-modify i.varname is d.0)

  pub is_empty-modify : (is : List VariableInfo) → is_empty (modify name f is) ≡ is_empty is
  unfolding modify
  is_empty-modify [] = refl
  is_empty-modify (i ∷ is) = ground arith

  pub All-modify :
      (self : ℕ) (is : List VariableInfo)
      → ((i : VariableInfo)
          → find name is ≡ some i
          → IsEntry self i
          → IsEntry self (record i { linked_var = f i.linked_var }))
      → All (IsEntry self) is
      → All (IsEntry self) (modify name f is)
  unfolding modify find
  All-modify self [] k h = tt
  All-modify self (i ∷ is) k h = elim (Bool-cases (i.varname == name)) [
    | inl hit ↦ rw hit (k i (rw hit) h.0, h.1)
    | inr miss ↦ rw miss (h.0, All-modify self is (λ j e. k j (rw miss e)) h.1)
  ]

-- Two changes of one entry, the second of which undoes the first.
pub modify-modify :
    (name : String) (f g : Variable → Variable) (is : List VariableInfo)
    → ((i : VariableInfo) → find name is ≡ some i → g (f i.linked_var) ≡ i.linked_var)
    → modify name g (modify name f is) ≡ is
unfolding modify find
modify-modify name f g [] k = refl
modify-modify name f g (i ∷ is) k = elim (Bool-cases (i.varname == name)) [
  | inl hit ↦ ground (arith, k i (rw hit))
  | inr miss ↦ ground (arith, modify-modify name f g is (λ j e. k j (rw miss e)))
]

module _ (name : String) where
  find-none-remove :
      (v : String) (is : List VariableInfo) → find v is ≡ none → find v (remove name is) ≡ none
  unfolding find remove
  find-none-remove v [] h = refl
  find-none-remove v (i ∷ is) h = ground (arith, find-none-remove v is)

  pub remove-IsDistinct : (is : List VariableInfo) → IsDistinct is → IsDistinct (remove name is)
  unfolding remove
  remove-IsDistinct [] d = tt
  remove-IsDistinct (i ∷ is) d =
      ground (arith, remove-IsDistinct is d.1, find-none-remove i.varname is d.0)

  pub find-remove :
      (v : String) (is : List VariableInfo)
      → IsDistinct is
      → find v (remove name is) ≡ (if name == v then none else find v is)
  unfolding find remove
  find-remove v [] d = ground arith
  find-remove v (i ∷ is) d =
      ground (arith, find-remove v is d.1, eq_iff i.varname name, eq_iff i.varname v, eq_iff name v)

  pub All-remove :
      (self : ℕ) (is : List VariableInfo)
      → All (IsEntry self) is
      → All (IsEntry self) (remove name is)
  unfolding remove
  All-remove self [] h = tt
  All-remove self (i ∷ is) h = elim (Bool-cases (i.varname == name)) [
    | inl hit ↦ rw hit h.1
    | inr miss ↦ rw miss (h.0, All-remove self is h.1)
  ]

  pub remove-append :
      (is : List VariableInfo) (j : VariableInfo)
      → find name is ≡ none
      → (j.varname == name) ≡ true
      → remove name (is ++ j ∷ []) ≡ is
  unfolding find remove
  remove-append [] j h e = rw e
  remove-append (i ∷ is) j h e = ground (arith, remove-append is j)
