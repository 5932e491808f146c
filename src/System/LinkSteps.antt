-- ===== src/System/LinkSteps.antt =====
-- `link` and `unlink` on a sound world.
use epics_tcl.Prelude.{
  ℕ, ◌≡◌, refl, String, some, List, nat_eq, Bool-cases, Option-cases, inl, inr, length,
}
use epics_tcl.Map.{lookup, string_eq, address_eq}
use epics_tcl.Command.{Command, find, word}
use epics_tcl.World.{World}
use epics_tcl.Registry.Sound.{Registered-store}
use epics_tcl.Links.{linked_world, link, unlink, already_linked, link_usage, silent}
use epics_tcl.Links.Sound.{is_linked-done, is_linked-false}
use epics_tcl.System.{IsSound}
use epics_tcl.System.Operations.{Ends}
use epics_tcl.Links.Kept.{linked_world-Linked, unlinked_world-Linked}

-- `link` ends and leaves a sound world.
pub link-Ends :
    (self : ℕ) (c : Command) (objv : List String) (w : World)
    → lookup self w.commands ≡ some c
    → IsSound w
    → Ends (λ x. IsSound x.0) (link self c objv w)
unfolding link
link-Ends self c objv w here s = elim (Bool-cases (nat_eq (length objv) 3)) [
  | inr wrong ↦ ((w, link_usage c), rw wrong, s)
  | inl right ↦
      let name = word objv 2 in
      let (taken, ended) = is_linked-done self name w s.registered in
      elim (Bool-cases taken) [
        | inl busy ↦ ((w, already_linked name), rw right (rw ended (rw busy)), s)
        | inr free ↦ (
          (linked_world self name c w, silent),
          rw right (rw ended (rw free)),
          record {
            registered = Registered-store self c _ w.commands refl here s.registered;
            linked =
                linked_world-Linked self name c w here
                  (is_linked-false self name w s.registered (rw (← free) ended)) s.linked;
          },
        )
      ]
]

-- `unlink` leaves a sound world.
pub unlink-IsSound :
    (self : ℕ) (c : Command) (objv : List String) (w : World)
    → lookup self w.commands ≡ some c
    → IsSound w
    → IsSound (unlink self c objv w).0
unfolding unlink
unlink-IsSound self c objv w here s = elim (Bool-cases (nat_eq (length objv) 3)) [
  | inr wrong ↦ rw wrong s
  | inl right ↦ rw right (elim (Option-cases (find (word objv 2) c.linked_variables)) [
    | inl absent ↦ rw (absent, unlink) s
    | inr (i, there) ↦
        rw (there, unlink)
          (record {
            registered = Registered-store self c _ w.commands refl here s.registered;
            linked = unlinked_world-Linked self (word objv 2) i c w here there s.linked;
          })
  ])
]
