-- ===== src/Command/Replies.antt =====
-- The replies of the subcommands that touch one command alone.
use epics_tcl.Prelude.{
  ◌≤◌, ◌≡◌, refl, ap, ◌↔◌, String, true, ◌&&◌, ◌||◌, is_some, List, [], ◌∷◌, length, nat_eq, eq_iff,
  arith, Bool-cases, Option-cases, inl, inr, if◌then◌else◌,
}
use epics_tcl.Prelude.Order.{
  contains, IsSorted, set_insert, set_insert-IsSorted, contains-set_insert,
}
use epics_tcl.Channel
use epics_tcl.Channel.{Channel, get_vector}
use epics_tcl.Channel.Reads.{get_vector-ignores-max}
use epics_tcl.Tcl.{Tcl, tcl_ok, Reply}
use epics_tcl.Command.{
  Command, VariableInfo, word, reply, get_count, get, matching, list_links, find,
}

-- What `get` asks for: at most three words, a count that is an integer, and a connection.
abbrev pub IsReadable : Tcl → Command → List String → Type 0
IsReadable t c objv =
    (length objv ≤ 3)
    × (length objv ≡ 3 → is_some (t.to_int (word objv 2)) ≡ true)
    × (c.channel.connected ≡ true)

get_count_iff :
    (t : Tcl) (objv : List String)
    → (is_some (get_count t objv) ≡ true)
      ↔ (length objv ≡ 3 → is_some (t.to_int (word objv 2)) ≡ true)
unfolding get_count
get_count_iff t objv = elim (Option-cases (t.to_int (word objv 2))) [
  | inl bad ↦ ((λ e three. ground (arith, bad, e, three)), (λ h. ground (arith, bad, h)))
  | inr (i, good) ↦ ((λ e three. ground (arith, good)), (λ h. ground (arith, good)))
]

-- `get` answers TCL_OK exactly if it has at most three words, its count is left out or an integer, and
-- the channel is connected; and then its result is the list of the channel's whole vector. The count has
-- no effect but to be an integer, although the manual and the documentation of getVector promise no more
-- elements than the count.
pub get-ok_iff :
    (t : Tcl) (c : Command) (objv : List String)
    → (((get t c objv).status ≡ tcl_ok) ↔ IsReadable t c objv)
      × (IsReadable t c objv → get t c objv ≡ reply (t.merge c.channel.vector_value))
unfolding get get_count Channel.is_connected
get-ok_iff t c objv =
    let whole : IsReadable t c objv → get t c objv ≡ reply (t.merge c.channel.vector_value) = (λ h.
      let counted = (get_count_iff t objv).1 h.1 in
      elim (Option-cases (get_count t objv)) [
        | inl none_given ↦ ground (arith, counted)
        | inr (max, given) ↦ ground (arith, (get_vector-ignores-max c.channel max).0)
      ]) in
    let counts : (get t c objv).status ≡ tcl_ok → is_some (get_count t objv) ≡ true =
      (λ e. ground (arith)) in
    (
      (
        (λ e. (ground (arith), (get_count_iff t objv).0 (counts e), ground (arith))),
        (λ h. ap Reply.status (whole h)),
      ),
      whole,
    )

contains-matching :
    (t : Tcl) (pattern x : String) (is : List VariableInfo) (sorted : List String)
    → contains x (matching t pattern is sorted)
      ≡ ((is_some (find x is) && t.string_match x pattern) || contains x sorted)
unfolding matching find
contains-matching t pattern x [] sorted = refl
contains-matching t pattern x (i ∷ is) sorted = ground (
  arith,
  eq_iff x i.varname,
  eq_iff i.varname x,
  contains-set_insert x i.varname sorted,
  contains-matching t pattern x is sorted,
  contains-matching t pattern x is (set_insert i.varname sorted),
)

matching-IsSorted :
    (t : Tcl) (pattern : String) (is : List VariableInfo) (sorted : List String)
    → IsSorted sorted
    → IsSorted (matching t pattern is sorted)
unfolding matching
matching-IsSorted t pattern [] sorted h = h
matching-IsSorted t pattern (i ∷ is) sorted h =
    elim (Bool-cases (t.string_match i.varname pattern)) [
      | inl yes_here ↦ rw yes_here (
          matching-IsSorted t pattern is (set_insert i.varname sorted)
            (set_insert-IsSorted i.varname sorted h))
      | inr not_here ↦ rw not_here (matching-IsSorted t pattern is sorted h)
    ]

-- `listlinks` with two or three words answers TCL_OK with a list of names, in strictly ascending order,
-- that holds a name exactly if a linked variable has it and it matches the pattern (`*` if left out).
pub list_links_lem :
    (t : Tcl) (c : Command) (objv : List String)
    → length objv ≤ 3
    → let pattern = if nat_eq (length objv) 3 then word objv 2 else "*" in
      (names : List String) × (list_links t c objv ≡ reply (t.merge names))
      × IsSorted names
      × ((x : String)
          → contains x names ≡ (is_some (find x c.linked_variables) && t.string_match x pattern))
unfolding list_links contains
list_links_lem t c objv few =
    let pattern = (if nat_eq (length objv) 3 then word objv 2 else "*") in
    (
      matching t pattern c.linked_variables [],
      ground arith,
      matching-IsSorted t pattern c.linked_variables [] tt,
      λ x. ground (arith, contains-matching t pattern x c.linked_variables []),
    )
