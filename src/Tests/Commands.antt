-- ===== src/Tests/Commands.antt =====
-- The theorems of the commands that touch one command alone, at small inputs.
use epics_tcl.Prelude.{
  ◌≡◌, ◌≢◌, refl, ◌↔◌, String, true, false, ◌&&◌, some, is_some, List, [], ◌∷◌, map, take, arith,
}
use epics_tcl.Prelude.Int.{ℤ}
use epics_tcl.Prelude.Order.{contains, IsSorted}
use epics_tcl.Ca.{array_put_long, array_put_string, flush_io}
use epics_tcl.Channel.PutBounds.{until_nul, text_take}
use epics_tcl.Tcl.{tcl_ok}
use epics_tcl.Command.{find, reply, get, list_links}
use epics_tcl.Command.Set.{set}
use epics_tcl.Command.Replies.{get-ok_iff, IsReadable, list_links_lem}
use epics_tcl.Command.Assignments.{set-refused, set-int_iff, set-string_iff}
use epics_tcl.Tests.{wide, tcl, offline, online, command_of}

abbrev get_words : List String
get_words = "ch" ∷ "get" ∷ "7" ∷ []

get-ok_iff_example :
    (((get tcl (command_of online) get_words).status ≡ tcl_ok)
      ↔ IsReadable tcl (command_of online) get_words)
    × (IsReadable tcl (command_of online) get_words
        → get tcl (command_of online) get_words ≡ reply "ab")
get-ok_iff_example = get-ok_iff tcl (command_of online) get_words

abbrev list_words : List String
list_words = "ch" ∷ "listlinks" ∷ []

list_links_lem_example :
    (names : List String) × (list_links tcl (command_of online) list_words
      ≡ reply (tcl.merge names))
    × IsSorted names
    × ((x : String) → contains x names ≡ (is_some (find x []) && tcl.string_match x "*"))
list_links_lem_example = list_links_lem tcl (command_of online) list_words (omega arith)

abbrev set_words : List String
set_words = "ch" ∷ "set" ∷ "7" ∷ "int" ∷ []

set-refused_example :
    ((set wide tcl 2 true (command_of offline) set_words).0.status ≢ tcl_ok
      → (set wide tcl 2 true (command_of offline) set_words).1 ≡ [])
    × (false ≡ false → (set wide tcl 2 true (command_of offline) set_words).1 ≡ [])
set-refused_example = set-refused wide tcl 2 true (command_of offline) set_words

set-int_iff_example :
    (((set wide tcl 2 true (command_of online) set_words).0.status ≡ tcl_ok) ↔ (
      (ss : List String) × (xs : List ℤ) × (tcl.list_elements "7" ≡ some ss)
      × (map tcl.to_int ss ≡ map some xs)))
    × ((ss : List String) (xs : List ℤ)
        → tcl.list_elements "7" ≡ some ss
        → map tcl.to_int ss ≡ map some xs
        → true ≡ true
        → true ≡ true
        → (set wide tcl 2 true (command_of online) set_words).1
          ≡ array_put_long 10 (take 2 xs) ∷ flush_io ∷ [])
    × (true ≡ false → (set wide tcl 2 true (command_of online) set_words).1 ≡ [])
set-int_iff_example = set-int_iff wide tcl 2 true (command_of online) set_words refl refl

abbrev real_words : List String
real_words = "ch" ∷ "set" ∷ "7" ∷ "real" ∷ []

abbrev text_words : List String
text_words = "ch" ∷ "set" ∷ "7" ∷ []

set-string_iff_example :
    (((set wide tcl 2 true (command_of online) text_words).0.status ≡ tcl_ok)
      ↔ ((ss : List String) × (tcl.list_elements "7" ≡ some ss)))
    × ((ss : List String)
        → tcl.list_elements "7" ≡ some ss
        → true ≡ true
        → true ≡ true
        → (set wide tcl 2 true (command_of online) text_words).1
          ≡ array_put_string 10 (map (λ s. text_take 39 (until_nul s)) (take 2 ss)) ∷ flush_io ∷ [])
    × (true ≡ false → (set wide tcl 2 true (command_of online) text_words).1 ≡ [])
set-string_iff_example = set-string_iff wide tcl 2 true (command_of online) text_words refl
