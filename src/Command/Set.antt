-- ===== src/Command/Set.antt =====
-- The `set` subcommand of `CTCLChannelCommand`.
use epics_tcl.Prelude.{
  ℕ, String, Bool, Option, none, some, List, [], ◌∷◌, ◌==◌, ◌||◌, nat_eq, ltb, length, join,
  if◌then◌else◌,
}
use mathlib.Core.Option
use epics_tcl.Ca.{CaCall, Platform}
use epics_tcl.Channel.Put.{assign_strings, assign_ints, assign_doubles}
use epics_tcl.Tcl.{Tcl, tcl_ok, Reply}
use epics_tcl.Command.{Command, usage, word, fail}

-- The loop that converts each element of the list, stopping at the first that throws.
unfoldable pub convert_all {ℓ} : {A : Type ℓ} → (String → Option A) → List String → Option (List A)
convert_all f [] = some []
convert_all f (s ∷ ss) = elim (f s) [
  | none ↦ none
  | some a ↦ Option.map (λ as'. a ∷ as') (convert_all f ss)
]

unfoldable pub convert_list {ℓ} :
    {A : Type ℓ} → Tcl → (String → Option A) → String → Option (List A)
unfolding convert_all
convert_list t f value = elim (t.list_elements value) [ none ↦ none | some ss ↦ convert_all f ss ]

-- What the `catch (...)` clause answers.
unfoldable pub not_converted : List String → String → Reply
not_converted objv datatype = fail (
    join (
      word objv 0
      ∷ " "
      ∷ word objv 1
      ∷ " "
      ∷ word objv 2
      ∷ " "
      ∷ datatype
      ∷ "\n -- data does not all convert to selecte data type \n"
      ∷ "or is not a proper list.\n"
      ∷ []))

abbrev accepted : Reply
accepted = record { status = tcl_ok; result = none }

unfoldable pub finish {ℓ} :
    {A : Type ℓ}
    → Option (List A)
    → (List A → List CaCall)
    → List String
    → String
    → Reply × List CaCall
unfolding not_converted
finish none put objv datatype = (not_converted objv datatype, [])
finish (some xs) put objv datatype = (accepted, put xs)

-- The reply, and the calls of channel access. `element_count` and `allocated` are the environment's
-- answers to the assignment.
unfoldable pub set : Platform → Tcl → ℕ → Bool → Command → List String → Reply × List CaCall
unfolding convert_list finish
set p t element_count allocated c objv =
    let value = word objv 2 in
    let datatype = (if nat_eq (length objv) 4 then word objv 3 else "string") in
    if ltb (length objv) 3 || ltb 4 (length objv)
    then (
      fail
          (join (word objv 0 ∷ " " ∷ word objv 1 ∷ " -- insufficient parameters\n" ∷ usage c ∷ [])),
      [],
    )
    else if datatype == "string"
    then finish (convert_list t some value)
        (λ xs. assign_strings p element_count allocated xs c.channel) objv datatype
    else if datatype == "int"
    then finish (convert_list t t.to_int value)
        (λ xs. assign_ints element_count allocated xs c.channel) objv datatype
    else if datatype == "real"
    then finish (convert_list t t.to_double value)
        (λ xs. assign_doubles element_count allocated xs c.channel) objv datatype
    else (
      fail (
          join (
            word objv 0
            ∷ " "
            ∷ word objv 1
            ∷ " "
            ∷ word objv 2
            ∷ " "
            ∷ datatype
            ∷ " -- invalid data type\n"
            ∷ usage c
            ∷ [])),
      [],
    )
