-- ===== src/System/LinkCounts.antt =====
-- `link` and `unlink` on sound worlds, against a map from variables to numbers of references.
use epics_tcl.Prelude.{
  ℕ, ◌≡◌, ◌≢◌, eq_iff, ◌⊎◌, ◌↔◌, ap, String, true, false, some, List, length, Bool-cases,
  Option-cases, inl, inr, arith,
}
use epics_tcl.Map.{address_eq}
use epics_tcl.Command.{Command, find, word}
use epics_tcl.World.{World, done, at}
use epics_tcl.Links.{is_linked, linked_world, link, unlink, already_linked, silent}
use epics_tcl.Links.Sound.{IsLinked, is_linked-done}
use epics_tcl.Links.RoundTrip.{after_link, after_unlink}
use epics_tcl.Links.Counts.{
  references, IsCounted, OneMore, OneLess, add_link-OneMore, drop_link-OneLess,
}
use epics_tcl.System.{IsSound}
use epics_tcl.System.Linking.{at-store, unlink-found}

link-OneMore :
    (self : ℕ) (c : Command) (objv : List String) (w : World)
    → length objv ≡ 3
    → IsSound w
    → IsCounted (word objv 2) c.linked_variables
    → (link self c objv w ≡ done (w, already_linked (word objv 2)))
      ⊎ ((w' : World) × (c' : Command) × ((link self c objv w ≡ done (w', silent))
            × (at w' self ≡ some c')
            × OneMore (word objv 2) c.linked_variables c'.linked_variables))
unfolding link linked_world
link-OneMore self c objv w three s k =
    let name = word objv 2 in
    let (taken, ended) = is_linked-done self name w s.registered in
    elim (Bool-cases taken) [
      | inl busy ↦
          let truly : is_linked self name w ≡ done true = rw ended (ap done busy) in
          inl (rw three (rw truly))
      | inr free ↦
          let falsely : is_linked self name w ≡ done false = rw ended (ap done free) in
          inr (
            linked_world self name c w,
            after_link self name c,
            (
              rw three (rw falsely),
              at-store self (after_link self name c) w.commands,
              add_link-OneMore name self c k,
            ),
          )
    ]

unlink-OneLess :
    (self : ℕ) (c : Command) (objv : List String) (w : World)
    → length objv ≡ 3
    → at w self ≡ some c
    → IsSound w
    → IsCounted (word objv 2) c.linked_variables
    → (c' : Command) × ((at (unlink self c objv w).0 self ≡ some c')
        × OneLess (word objv 2) c.linked_variables c'.linked_variables)
unfolding unlink
unlink-OneLess self c objv w three here s k =
    let name = word objv 2 in
    elim (Option-cases (find name c.linked_variables)) [
      | inl new ↦ (c, (rw three (rw (new, unlink) here), λ v. ground (arith, new, eq_iff name v)))
      | inr (i, old) ↦ (
        after_unlink name i c,
        (
          (unlink-found self c i objv w three old).0,
          drop_link-OneLess name c.linked_variables i (s.linked.well self c here).distinct k old,
        ),
      )
    ]

IsLinked-iff :
    (name : String) (c : Command)
    → IsCounted name c.linked_variables
    → IsLinked name c ↔ (references c.linked_variables name ≢ 0)
IsLinked-iff name c k = elim (Option-cases (find name c.linked_variables)) [
  | inl new ↦ ground (arith, new)
  | inr (i, old) ↦ let (positive, fits) = k i old in ground (arith, old, positive)
]

-- On a sound world, the linked variables of a live command are a map from names to numbers of references, if
-- the count of the variable in question is neither 0 nor at its type's end. A `link` is refused and
-- changes nothing, or adds one to the variable, and to no other; an `unlink` takes one off the variable, if
-- it has one, and off no other; and the variable is linked exactly if its number is not 0.
pub link-unlink-references :
    (self : ℕ) (c : Command) (objv : List String) (w : World)
    → length objv ≡ 3
    → at w self ≡ some c
    → IsSound w
    → IsCounted (word objv 2) c.linked_variables
    → ((link self c objv w ≡ done (w, already_linked (word objv 2)))
        ⊎ ((w' : World) × (c' : Command) × ((link self c objv w ≡ done (w', silent))
              × (at w' self ≡ some c')
              × OneMore (word objv 2) c.linked_variables c'.linked_variables)))
      × ((c' : Command) × ((at (unlink self c objv w).0 self ≡ some c')
            × OneLess (word objv 2) c.linked_variables c'.linked_variables))
      × (IsLinked (word objv 2) c ↔ (references c.linked_variables (word objv 2) ≢ 0))
link-unlink-references self c objv w three here s k = (
  link-OneMore self c objv w three s k,
  unlink-OneLess self c objv w three here s k,
  IsLinked-iff (word objv 2) c k,
)
