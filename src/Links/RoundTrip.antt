-- ===== src/Links/RoundTrip.antt =====
-- An unlink undoes a link.
use epics_tcl.Prelude.{
  ℕ, ◌^◌, ◌<◌, ◌≡◌, String, false, none, some, List, [], ◌∷◌, ap, eq_refl, is_empty, nat_eq,
  Option-cases, inl, inr, arith, All, if◌then◌else◌,
}
use epics_tcl.Channel.{mark_change, set_slot}
use epics_tcl.Variable.{Variable, reference, dereference}
use epics_tcl.Variable
use epics_tcl.Command.{Command, VariableInfo, find}
use epics_tcl.Links.{add_link, drop_link}
use epics_tcl.Links.Lists.{IsEntry, find-append_new, find-modify_self, modify-modify, remove-append}
use epics_tcl.Links.Sound.{IsWell}

dereference-reference :
    (v : Variable)
    → 0 < v.reference_count
    → v.reference_count < 2 ^ 32
    → (dereference (reference v) ≡ v)
      × (nat_eq (dereference (reference v)).reference_count 0 ≡ false)
unfolding reference dereference
dereference-reference v h k = ground arith

fits_of_find :
    (name : String) (self : ℕ) (is : List VariableInfo) (i : VariableInfo)
    → All (IsEntry self) is
    → find name is ≡ some i
    → i.linked_var.reference_count < 2 ^ 32
unfolding find
fits_of_find name self [] i h e = cc
fits_of_find name self (j ∷ is) i h e = ground (arith, h.0.fits, fits_of_find name self is i h.1)

-- A well formed command's channel is as if its slot were set anew.
set_slot_again :
    (self : ℕ) (c : Command)
    → IsWell self c
    → (if is_empty c.linked_variables
        then set_slot none none c.channel
        else set_slot (some mark_change) (some self) c.channel)
      ≡ c.channel
unfolding set_slot
set_slot_again self c w = ground (arith, w.slot, w.slot_data)

-- The command after a link, and after the unlink of the entry `i`.
abbrev pub after_link : ℕ → String → Command → Command
after_link self name c = record c {
  linked_variables = (add_link self name c).0;
  channel = set_slot (some mark_change) (some self) c.channel;
}

abbrev pub after_unlink : String → VariableInfo → Command → Command
after_unlink name i c = record c {
  linked_variables = (drop_link name i c.linked_variables).0;
  channel =
      (if is_empty (drop_link name i c.linked_variables).0
        then set_slot none none c.channel
        else c.channel);
}

module _ (self : ℕ) (name : String) (c : Command) (w : IsWell self c) where
  pub drop_link-add_link :
      ((i : VariableInfo)
        → find name c.linked_variables ≡ some i
        → 0 < i.linked_var.reference_count)
      → (i : VariableInfo) × (find name (add_link self name c).0 ≡ some i)
        × ((drop_link name i (add_link self name c).0).0 ≡ c.linked_variables)
  unfolding add_link drop_link Variable.new dereference
  drop_link-add_link positive = elim (Option-cases (find name c.linked_variables)) [
    | inl new ↦
        let j : VariableInfo = record { varname = name; linked_var = (Variable.new name self).0 } in
        (
          j,
          rw (new, add_link) (find-append_new name c.linked_variables j new (eq_refl name)),
          rw (new, add_link) (remove-append name c.linked_variables j new (eq_refl name)),
        )
    | inr (i, old) ↦
        let (back, kept) =
          dereference-reference i.linked_var (positive i old)
            (fits_of_find name self c.linked_variables i w.entries old) in
        (
          record i { linked_var = reference i.linked_var },
          rw (old, add_link) (find-modify_self name reference c.linked_variables i old),
          rw (old, add_link)
              (rw kept (
                modify-modify name reference dereference c.linked_variables
                  (λ j e. ground (arith, back)))),
        )
  ]

  pub after_unlink-after_link :
      (i : VariableInfo)
      → (drop_link name i (add_link self name c).0).0 ≡ c.linked_variables
      → after_unlink name i (after_link self name c) ≡ c
  unfolding set_slot
  after_unlink-after_link i back =
      rw back (ap (λ ch. record c { channel = ch }) (set_slot_again self c w))
