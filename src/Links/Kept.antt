-- ===== src/Links/Kept.antt =====
-- A link and an unlink keep the links sound.
use epics_tcl.Prelude.{
  ℕ, ◌≡◌, refl, sym, ◌∙◌, String, true, false, ◌||◌, none, some, is_some, List, [], ◌∷◌, ◌++◌, ◌==◌,
  eq_iff, nat_eq, is_empty, All, All-append, Bool-cases, Option-cases, inl, inr, arith,
  if◌then◌else◌, subst,
}
use epics_tcl.Channel.{mark_change, set_slot}
use epics_tcl.Variable
use epics_tcl.Variable.{reference, dereference}
use epics_tcl.Map.{lookup, string_eq, address_eq}
use epics_tcl.Command.{Command, VariableInfo, find}
use epics_tcl.World.{World}
use epics_tcl.Links.{add_link, linked_world, drop_link, unlinked_world}
use epics_tcl.Links.Lists.{
  IsDistinct, IsEntry, find-append, append-IsDistinct, find-modify, modify-IsDistinct,
  is_empty-modify, All-modify, remove-IsDistinct, find-remove, All-remove,
}
use epics_tcl.Links.Sound.{IsWell, IsLinked, Linked, Linked-store}

-- The list that a link makes.
module _ (self : ℕ) (name : String) (c : Command) (w : IsWell self c) where
  new_entry : VariableInfo
  new_entry = record { varname = name; linked_var = (Variable.new name self).0 }

  reference-IsEntry :
      (i : VariableInfo)
      → find name c.linked_variables ≡ some i
      → IsEntry self i
      → IsEntry self (record i { linked_var = reference i.linked_var })
  unfolding reference
  reference-IsEntry i e h = record { named = h.named; owned = h.owned; fits = omega arith }

  dereference-IsEntry :
      (i : VariableInfo)
      → find name c.linked_variables ≡ some i
      → IsEntry self i
      → IsEntry self (record i { linked_var = dereference i.linked_var })
  unfolding dereference
  dereference-IsEntry i e h = record { named = h.named; owned = h.owned; fits = omega arith }

  is_empty_of_find :
      (is : List VariableInfo) (i : VariableInfo) → find name is ≡ some i → is_empty is ≡ false
  unfolding find
  is_empty_of_find [] i e = cc
  is_empty_of_find (j ∷ is) i e = refl

  is_empty-append : (is : List VariableInfo) (i : VariableInfo) → is_empty (is ++ i ∷ []) ≡ false
  is_empty-append [] i = refl
  is_empty-append (j ∷ is) i = refl

  -- The list after a link: all its entries are in order, no name stands twice, it is not empty, and
  -- it holds the names that it held and the new one.
  add_link_lem :
      let links = (add_link self name c).0 in
      All (IsEntry self) links
      × IsDistinct links
      × (is_empty links ≡ false)
      × ((v : String) → is_some (find v links) ≡ (is_some (find v c.linked_variables) || name == v))
  unfolding add_link Variable.new
  add_link_lem = elim (Option-cases (find name c.linked_variables)) [
    | inl new ↦
        rw (new, add_link)
          (
            All-append (IsEntry self) c.linked_variables _ w.entries
                (record { named = refl; owned = refl; fits = omega arith }, tt),
            append-IsDistinct c.linked_variables _ new w.distinct,
            is_empty-append c.linked_variables _,
            λ v. find-append v c.linked_variables _,
          )
    | inr (i, old) ↦
        rw (old, add_link)
          (
            All-modify name reference self c.linked_variables reference-IsEntry w.entries,
            modify-IsDistinct name reference c.linked_variables w.distinct,
            is_empty-modify name reference c.linked_variables
                ∙ is_empty_of_find c.linked_variables i old,
            λ v. ground (arith, find-modify name reference v c.linked_variables, eq_iff name v),
          )
  ]

  add_link-IsWell : IsWell self (record c {
    linked_variables = (add_link self name c).0;
    channel = set_slot (some mark_change) (some self) c.channel;
  })
  unfolding set_slot
  add_link-IsWell =
      let (entries, distinct, filled, _) = add_link_lem in
      record { entries = entries; distinct = distinct; slot = rw filled; slot_data = rw filled }

-- A link of a variable that no other command links keeps the links sound.
module _ (self : ℕ) (name : String) (c : Command) (w : World) where
  pub linked_world-Linked :
      lookup self w.commands ≡ some c
      → ((b : ℕ) (d : Command) → lookup b w.commands ≡ some d → IsLinked name d → self ≡ b)
      → Linked w.commands
      → Linked (linked_world self name c w).commands
  unfolding linked_world
  linked_world-Linked here alone l =
      let well = l.well self c here in
      let (_, _, _, holds) = add_link_lem self name c well in
      Linked-store self _ w.commands (add_link-IsWell self name c well)
        (λ v b d lv live ld. elim (Bool-cases (is_some (find v c.linked_variables))) [
          | inl old ↦ l.exclusive self b c d v here live old ld
          | inr new ↦
              let same : name ≡ v = ground (arith, holds v, eq_iff name v) in
              alone b d live (subst (λ x. IsLinked x d) (sym same) ld)
        ])
        l

-- The list after an unlink.
module _ (self : ℕ) (name : String) (i : VariableInfo) (c : Command) (w : IsWell self c) where
  drop_link_lem :
      let links = (drop_link name i c.linked_variables).0 in
      All (IsEntry self) links
      × IsDistinct links
      × ((v : String) → is_some (find v links) ≡ true → IsLinked v c)
  unfolding drop_link
  drop_link_lem = elim (Bool-cases (nat_eq (dereference i.linked_var).reference_count 0)) [
    | inl last ↦ rw last (
      All-remove name self c.linked_variables w.entries,
      remove-IsDistinct name c.linked_variables w.distinct,
      λ v e. ground (arith, find-remove name v c.linked_variables w.distinct),
    )
    | inr more ↦ rw more (
      All-modify name dereference self c.linked_variables (dereference-IsEntry self name c w)
          w.entries,
      modify-IsDistinct name dereference c.linked_variables w.distinct,
      λ v e. ground (arith, find-modify name dereference v c.linked_variables),
    )
  ]

  -- A list that is not empty afterwards was not empty before.
  drop_link-is_empty :
      find name c.linked_variables ≡ some i
      → is_empty (drop_link name i c.linked_variables).0 ≡ false
      → is_empty c.linked_variables ≡ false
  drop_link-is_empty here e = is_empty_of_find self name c w c.linked_variables i here

  drop_link-IsWell :
      find name c.linked_variables ≡ some i
      → IsWell self (record c {
        linked_variables = (drop_link name i c.linked_variables).0;
        channel =
            (if is_empty (drop_link name i c.linked_variables).0
              then set_slot none none c.channel
              else c.channel);
      })
  unfolding set_slot
  drop_link-IsWell here =
      let (entries, distinct, _) = drop_link_lem in
      let links = (drop_link name i c.linked_variables).0 in
      elim (Bool-cases (is_empty links)) [
        | inl gone ↦ record {
          entries = entries;
          distinct = distinct;
          slot = rw gone;
          slot_data = rw gone;
        }
        | inr kept ↦ record {
          entries = entries;
          distinct = distinct;
          slot = rw kept (w.slot ∙ rw (drop_link-is_empty here kept));
          slot_data = rw kept (w.slot_data ∙ rw (drop_link-is_empty here kept));
        }
      ]

-- An unlink keeps the links sound.
module _ (self : ℕ) (name : String) (i : VariableInfo) (c : Command) (w : World) where
  pub unlinked_world-Linked :
      lookup self w.commands ≡ some c
      → find name c.linked_variables ≡ some i
      → Linked w.commands
      → Linked (unlinked_world self name i c w).commands
  unfolding unlinked_world
  unlinked_world-Linked here there l =
      let well = l.well self c here in
      let (_, _, holds) = drop_link_lem self name i c well in
      Linked-store self _ w.commands (drop_link-IsWell self name i c well there)
        (λ v b d lv live ld. l.exclusive self b c d v here live (holds v lv) ld) l
