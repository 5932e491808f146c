-- ===== src/System/Linking.antt =====
-- `link` and `unlink` on sound worlds.
use epics_tcl.Prelude.{
  ℕ, ◌<◌, ◌≡◌, refl, sym, ap, ◌∙◌, ◌↔◌, ◌≢◌, String, true, false, not, ◌&&◌, some, is_some, List,
  [], ◌∷◌, length, nat_eq, nat_eq_iff, Bool-cases, inl, inr, arith, All,
}
use epics_tcl.Map.{Map, lookup, insert, string_eq, address_eq, lookup-insert}
use epics_tcl.Command.{Command, VariableInfo, find, word}
use epics_tcl.World.{World, RefCountedChannel, done, at}
use epics_tcl.Registry.Sound.{Entry}
use epics_tcl.Links.{
  is_linked, is_linked_in, linked_world, link, unlinked_world, unlink, already_linked, silent,
}
use epics_tcl.Links.Sound.{IsLinked, is_linked-done, is_linked-false}
use epics_tcl.Links.RoundTrip.{
  after_link, after_unlink, drop_link-add_link, after_unlink-after_link,
}
use epics_tcl.System.{IsSound}

module _ (self : ℕ) (name : String) (w : World) where
  -- What the test of `link` finds, if it says yes.
  is_linked_in-true :
      (m : Map String RefCountedChannel)
      → All (Entry w.commands) m
      → is_linked_in self name w m ≡ done true
      → (b : ℕ) × (d : Command) × (b ≢ self) × (at w b ≡ some d) × IsLinked name d
  unfolding is_linked_in
  is_linked_in-true [] h e = absurd (cc)
  is_linked_in-true ((key, info) ∷ m) ((d, live, _, _), h) e =
      elim (Bool-cases (is_some (find name d.linked_variables) && not (nat_eq info.command self))) [
        | inl yes_here ↦ (
          info.command,
          d,
          (λ q. ground (arith, nat_eq_iff info.command self)),
          live,
          ground arith,
        )
        | inr not_here ↦ is_linked_in-true m h (ground arith)
      ]

-- On a sound world, `link` with one variable is refused, with an error that names
-- the variable and no change, exactly if another live command links the variable; else it links the
-- variable and answers TCL_OK.
pub link-refused_iff :
    (self : ℕ) (c : Command) (objv : List String) (w : World)
    → length objv ≡ 3
    → IsSound w
    → let name = word objv 2 in
      ((link self c objv w ≡ done (w, already_linked name))
        ↔ ((b : ℕ) × (d : Command) × (b ≢ self) × (at w b ≡ some d) × IsLinked name d))
      × ((link self c objv w ≢ done (w, already_linked name))
          → link self c objv w ≡ done (linked_world self name c w, silent))
unfolding link is_linked
link-refused_iff self c objv w three s =
    let name = word objv 2 in
    let (taken, ended) = is_linked-done self name w s.registered in
    elim (Bool-cases taken) [
      | inl busy ↦
          let truly : is_linked self name w ≡ done true = rw ended (ap done busy) in
          let refused : link self c objv w ≡ done (w, already_linked name) = rw three (rw truly) in
          (
            (
              (λ e. is_linked_in-true self name w w.known_channels s.registered.entries truly),
              (λ h. refused),
            ),
            λ h. absurd (h refused),
          )
      | inr free ↦
          let falsely : is_linked self name w ≡ done false = rw ended (ap done free) in
          let linked : link self c objv w ≡ done (linked_world self name c w, silent) =
            rw three (rw falsely) in
          (
            (
              (λ e. absurd (ground (arith))),
              (λ h.
                  absurd
                    (h.2 (sym (is_linked-false self name w s.registered falsely h.0 h.1 h.3 h.4)))),
            ),
            λ h. linked,
          )
    ]

pub at-store : (self : ℕ) (c : Command) (m : Map ℕ Command) → lookup self (insert self c m) ≡ some c
at-store self c m = rw (lookup-insert self self c m, (nat_eq_iff self self).1 refl)

pub unlink-found :
    (self : ℕ) (c : Command) (i : VariableInfo) (objv : List String) (w : World)
    → length objv ≡ 3
    → find (word objv 2) c.linked_variables ≡ some i
    → (at (unlink self c objv w).0 self ≡ some (after_unlink (word objv 2) i c))
      × ((unlink self c objv w).1 ≡ silent)
unfolding unlink unlinked_world
unlink-found self c i objv w three there = (
  rw three (rw (there, unlink) (at-store self (after_unlink (word objv 2) i c) w.commands)),
  rw three (rw (there, unlink)),
)

-- On a sound world, if a live command's `link` is not refused, the `unlink` with the same words gives
-- the command back as it was, its list and its channel's slot included, and answers TCL_OK; given
-- that an entry that the variable had counts a reference.
pub unlink-link :
    (self : ℕ) (c : Command) (objv : List String) (w w' : World)
    → length objv ≡ 3
    → at w self ≡ some c
    → IsSound w
    → ((i : VariableInfo)
        → find (word objv 2) c.linked_variables ≡ some i
        → 0 < i.linked_var.reference_count)
    → link self c objv w ≡ done (w', silent)
    → (c' : Command) × (at w' self ≡ some c')
      × (at (unlink self c' objv w').0 self ≡ some c)
      × ((unlink self c' objv w').1 ≡ silent)
unfolding linked_world
unlink-link self c objv w w' three here s positive e =
    let name = word objv 2 in
    let well = s.linked.well self c here in
    let (i, there, back) = drop_link-add_link self name c well positive in
    let c' = after_link self name c in
    let made : link self c objv w ≡ done (linked_world self name c w, silent) =
      (link-refused_iff self c objv w three s).1 (λ q. ground arith) in
    let same : w' ≡ linked_world self name c w = ground arith in
    let undone = after_unlink-after_link self name c well i back in
    (
      c',
      rw same (at-store self c' w.commands),
      (unlink-found self c' i objv w' three there).0 ∙ ap some undone,
      (unlink-found self c' i objv w' three there).1,
    )
