-- ===== src/Links/Counts.antt =====
-- The linked variables of a command against a map from names to numbers of references.
use epics_tcl.Prelude.{
  ℕ, ◌+◌, ◌-◌, ◌^◌, ◌<◌, ◌≡◌, refl, ap, String, true, false, Option, none, some, List, [], ◌∷◌,
  ◌++◌, ◌==◌, eq_iff, eq_refl, nat_eq, Bool-cases, Option-cases, inl, inr, arith, if◌then◌else◌,
}
use epics_tcl.Variable.{Variable, reference, dereference}
use epics_tcl.Variable
use epics_tcl.Command.{Command, VariableInfo, find}
use epics_tcl.Links.{modify, add_link, drop_link}
use epics_tcl.Links.Lists.{IsDistinct, find-append_new, find-modify_self, find-remove}

-- How many references a variable has, 0 for one that is not linked.
abbrev pub count_of : Option VariableInfo → ℕ
count_of none = 0
count_of (some i) = i.linked_var.reference_count

abbrev pub references : List VariableInfo → String → ℕ
references is v = count_of (find v is)

dereference-count :
    (v : Variable)
    → 0 < v.reference_count
    → v.reference_count < 2 ^ 32
    → (dereference v).reference_count ≡ v.reference_count - 1
unfolding dereference
dereference-count v h k = omega arith

reference-count :
    (v : Variable)
    → v.reference_count + 1 < 2 ^ 32
    → (reference v).reference_count ≡ v.reference_count + 1
unfolding reference
reference-count v h = omega arith

module _ (name v : String) (differ : (name == v) ≡ false) where
  find-modify-other :
      (f : Variable → Variable) (is : List VariableInfo) → find v (modify name f is) ≡ find v is
  unfolding find modify
  find-modify-other f [] = refl
  find-modify-other f (i ∷ is) = ground (
    arith,
    find-modify-other f is,
    differ,
    eq_iff i.varname name,
    eq_iff i.varname v,
    eq_iff name v,
  )

  find-append-other :
      (j : VariableInfo) (is : List VariableInfo)
      → j.varname ≡ name
      → find v (is ++ j ∷ []) ≡ find v is
  unfolding find
  find-append-other j [] e = ground (arith, e, differ)
  find-append-other j (i ∷ is) e = ground (arith, find-append-other j is e)

module _ (name : String) (is : List VariableInfo) where
  -- One reference more, and one less, of `name` alone.
  abbrev pub OneMore : List VariableInfo → Type 0
  OneMore js =
      (v : String) → references js v ≡ (if name == v then references is v + 1 else references is v)

  abbrev pub OneLess : List VariableInfo → Type 0
  OneLess js =
      (v : String) → references js v ≡ (if name == v then references is v - 1 else references is v)

  -- The count of `name`, if it has one, neither is 0 nor wraps at the next reference.
  abbrev pub IsCounted : Type 0
  IsCounted =
      (i : VariableInfo)
      → find name is ≡ some i
      → (0 < i.linked_var.reference_count) × (i.linked_var.reference_count + 1 < 2 ^ 32)

  added :
      (self : ℕ) (v : String)
      → find name is ≡ none
      → references (is ++ record { varname = name; linked_var = (Variable.new name self).0 } ∷ []) v
        ≡ (if name == v then references is v + 1 else references is v)
  unfolding Variable.new
  added self v new =
      let j : VariableInfo = record { varname = name; linked_var = (Variable.new name self).0 } in
      elim (Bool-cases (name == v)) [
        | inl same ↦
            ground (arith, same, eq_iff name v, new, find-append_new name is j new (eq_refl name))
        | inr differ ↦ rw differ (ap count_of (find-append-other name v differ j is refl))
      ]

  modify-references :
      (f : Variable → Variable) (i : VariableInfo) (v : String)
      → find name is ≡ some i
      → references (modify name f is) v
        ≡ (if name == v then (f i.linked_var).reference_count else references is v)
  modify-references f i v e = elim (Bool-cases (name == v)) [
    | inl same ↦ ground (arith, same, eq_iff name v, find-modify_self name f is i e)
    | inr differ ↦ rw differ (ap count_of (find-modify-other name v differ f is))
  ]

  references_self :
      (i : VariableInfo) (v : String)
      → find name is ≡ some i
      → (name == v) ≡ true
      → references is v ≡ i.linked_var.reference_count
  references_self i v e same = ground (arith, e, same, eq_iff name v)

  pub drop_link-OneLess :
      (i : VariableInfo)
      → IsDistinct is
      → IsCounted
      → find name is ≡ some i
      → OneLess (drop_link name i is).0
  unfolding drop_link
  drop_link-OneLess i d k e v =
      let (positive, fits) = k i e in
      let less = dereference-count i.linked_var positive (omega (arith, fits)) in
      elim (Bool-cases (nat_eq (dereference i.linked_var).reference_count 0)) [
        | inl last ↦
            rw (last, find-remove name v is d)
              (elim (Bool-cases (name == v)) [
                | inl same ↦ rw same (ground (arith, last, less, references_self i v e same))
                | inr differ ↦ rw differ refl
              ])
        | inr more ↦
            rw (more, modify-references dereference i v e)
              (elim (Bool-cases (name == v)) [
                | inl same ↦ rw same (omega (arith, less, references_self i v e same))
                | inr differ ↦ rw differ refl
              ])
      ]

pub add_link-OneMore :
    (name : String) (self : ℕ) (c : Command)
    → IsCounted name c.linked_variables
    → OneMore name c.linked_variables (add_link self name c).0
unfolding add_link
add_link-OneMore name self c k v = elim (Option-cases (find name c.linked_variables)) [
  | inl new ↦ rw (new, add_link) (added name c.linked_variables self v new)
  | inr (i, old) ↦
      let (positive, fits) = k i old in
      let more = reference-count i.linked_var fits in
      rw (old, add_link)
        (rw (modify-references name c.linked_variables reference i v old)
          (elim (Bool-cases (name == v)) [
            | inl same ↦
                rw same (omega (arith, more, references_self name c.linked_variables i v old same))
            | inr differ ↦ rw differ refl
          ]))
]
