-- ===== src/Command/Assignments.antt =====
-- What the `set` subcommand sends, and what it answers.
use epics_tcl.Prelude.{
  ℕ, ap, ◌-◌, ◌∙◌, sym, ◌≡◌, refl, ◌↔◌, ◌≢◌, String, Bool, true, false, ◌||◌, ◌==◌, Option, none,
  some, List, [], ◌∷◌, map, length, ltb, nat_eq, arith, Bool-cases, Option-cases, inl, inr,
  if◌then◌else◌, take,
}
use epics_tcl.Ca.{CaCall, array_put_long, array_put_double, array_put_string, flush_io, Platform}
use epics_tcl.Prelude.Int.{ℤ}
use epics_tcl.Channel.{Channel}
use epics_tcl.Channel.Put.{assign_strings, assign_ints, assign_doubles}
use epics_tcl.Channel.PutBounds.{take-clipped_count, until_nul, text_take, map-strncpy}
use epics_tcl.Tcl.{Tcl, Reply, tcl_ok, tcl_error}
use epics_tcl.Command.{Command, word, usage}
use epics_tcl.Command.Set.{convert_all, convert_list, finish, set}

-- The loop converts a list exactly if each element converts, each to the element at its place.
convert_all_iff {ℓ} :
    {A : Type ℓ} (f : String → Option A) (ss : List String) (xs : List A)
    → (convert_all f ss ≡ some xs) ↔ (map f ss ≡ map some xs)
unfolding convert_all
convert_all_iff f [] [] = ground arith
convert_all_iff f [] (x ∷ xs) = ground arith
convert_all_iff f (s ∷ ss) [] = elim (Option-cases (convert_all f ss)) [
  | inl e ↦ ground arith
  | inr (a, e) ↦ ground arith
]
convert_all_iff f (s ∷ ss) (x ∷ xs) = elim (Option-cases (convert_all f ss)) [
  | inl e ↦ ground (arith, convert_all_iff f ss xs)
  | inr (a, e) ↦ ground (arith, convert_all_iff f ss xs)
]

finish-quiet {ℓ} :
    {A : Type ℓ} {Off : Type 0} (o : Option (List A)) (put : List A → List CaCall)
    (objv : List String) (d : String)
    → (Off → (xs : List A) → put xs ≡ [])
    → ((finish o put objv d).0.status ≢ tcl_ok → (finish o put objv d).1 ≡ [])
      × (Off → (finish o put objv d).1 ≡ [])
unfolding finish
finish-quiet none put objv d h = ((λ r. refl), (λ off. refl))
finish-quiet (some xs) put objv d h = ((λ r. absurd (r refl)), (λ off. h off xs))

finish-alike {ℓ} :
    {A : Type ℓ} (o : Option (List A)) (put put' : List A → List CaCall) (objv : List String)
    (d : String)
    → (finish o put objv d).0 ≡ (finish o put' objv d).0
unfolding finish
finish-alike none put put' objv d = refl
finish-alike (some xs) put put' objv d = refl

-- `set` never sends anything that it does not answer TCL_OK to, and nothing while the channel is
-- disconnected.
pub set-refused :
    (p : Platform) (t : Tcl) (n : ℕ) (a : Bool) (c : Command) (objv : List String)
    → ((set p t n a c objv).0.status ≢ tcl_ok → (set p t n a c objv).1 ≡ [])
      × (c.channel.connected ≡ false → (set p t n a c objv).1 ≡ [])
unfolding set assign_strings assign_ints assign_doubles
set-refused p t n a c objv =
    let datatype = (if nat_eq (length objv) 4 then word objv 3 else "string") in
    elim (Bool-cases (ltb (length objv) 3 || ltb 4 (length objv))) [
      | inl short ↦ rw short ((λ h. refl), (λ h. refl))
      | inr long ↦ elim (Bool-cases (datatype == "string")) [
        | inl strings ↦ rw (long, strings) (finish-quiet _ _ _ _ (λ off xs. rw off refl))
        | inr other_1 ↦ elim (Bool-cases (datatype == "int")) [
          | inl ints ↦ rw (long, other_1, ints) (finish-quiet _ _ _ _ (λ off xs. rw off refl))
          | inr other_2 ↦ elim (Bool-cases (datatype == "real")) [
            | inl reals ↦
                rw (long, other_1, other_2, reals) (finish-quiet _ _ _ _ (λ off xs. rw off refl))
            | inr unknown ↦ rw (long, other_1, other_2, unknown) ((λ h. refl), (λ h. refl))
          ]
        ]
      ]
    ]

-- The reply of `set` does not depend on the channel: a disconnected channel gets the reply that a
-- connected one gets.
set-replies_alike :
    (p : Platform) (t : Tcl) (n m : ℕ) (a b : Bool) (c : Command) (other : Channel)
    (objv : List String)
    → (set p t n a c objv).0 ≡ (set p t m b (record c { channel = other }) objv).0
unfolding set usage
set-replies_alike p t n m a b c other objv =
    let datatype = (if nat_eq (length objv) 4 then word objv 3 else "string") in
    elim (Bool-cases (ltb (length objv) 3 || ltb 4 (length objv))) [
      | inl short ↦ rw short refl
      | inr long ↦ elim (Bool-cases (datatype == "string")) [
        | inl strings ↦ rw (long, strings) (finish-alike _ _ _ _ _)
        | inr other_1 ↦ elim (Bool-cases (datatype == "int")) [
          | inl ints ↦ rw (long, other_1, ints) (finish-alike _ _ _ _ _)
          | inr other_2 ↦ elim (Bool-cases (datatype == "real")) [
            | inl reals ↦ rw (long, other_1, other_2, reals) (finish-alike _ _ _ _ _)
            | inr unknown ↦ rw (long, other_1, other_2, unknown) refl
          ]
        ]
      ]
    ]

-- The reply and the calls that end `set`, by what the value's elements convert to.
module _ {ℓ} {A : Type ℓ} (t : Tcl) (f : String → Option A) (value : String) where
  finish-ok_iff :
      (put : List A → List CaCall) (objv : List String) (d : String)
      → (((finish (convert_list t f value) put objv d).0.status ≡ tcl_ok) ↔ (
          (ss : List String) × (xs : List A) × (t.list_elements value ≡ some ss)
          × (map f ss ≡ map some xs)))
        × ((ss : List String) (xs : List A)
            → t.list_elements value ≡ some ss
            → map f ss ≡ map some xs
            → (finish (convert_list t f value) put objv d).1 ≡ put xs)
  unfolding convert_list finish
  finish-ok_iff put objv d = (
    (
      (λ e. elim (Option-cases (t.list_elements value)) [
        | inl improper ↦
            let refused : (finish (convert_list t f value) put objv d).0.status ≡ tcl_error =
              rw (improper, convert_list, finish) refl in
            absurd (cc)
        | inr (ss, proper) ↦ elim (Option-cases (convert_all f ss)) [
          | inl bad ↦
              let refused : (finish (convert_list t f value) put objv d).0.status ≡ tcl_error =
                rw (proper, convert_list) (rw (bad, finish) refl) in
              absurd (cc)
          | inr (xs, good) ↦ (ss, xs, proper, (convert_all_iff f ss xs).0 good)
        ]
      ]),
      (λ h. rw (h.2, convert_list) (rw ((convert_all_iff f h.0 h.1).1 h.3, finish) refl)),
    ),
    λ ss xs proper each.
        rw (proper, convert_list) (rw ((convert_all_iff f ss xs).1 each, finish) refl),
  )

-- `set` of integers answers TCL_OK exactly if its value is a proper list all of whose elements are
-- integers, whether the channel is connected or not. Then it sends to a connected channel for which there
-- is memory the first of them in their order, at most as many as the channel has elements, and to a
-- channel that is not connected nothing, although the documentation of Set lists that as an error.
pub set-int_iff :
    (p : Platform) (t : Tcl) (n : ℕ) (a : Bool) (c : Command) (objv : List String)
    → length objv ≡ 4
    → word objv 3 ≡ "int"
    → (((set p t n a c objv).0.status ≡ tcl_ok) ↔ (
        (ss : List String) × (xs : List ℤ) × (t.list_elements (word objv 2) ≡ some ss)
        × (map t.to_int ss ≡ map some xs)))
      × ((ss : List String) (xs : List ℤ)
          → t.list_elements (word objv 2) ≡ some ss
          → map t.to_int ss ≡ map some xs
          → c.channel.connected ≡ true
          → a ≡ true
          → (set p t n a c objv).1 ≡ array_put_long c.channel.chid (take n xs) ∷ flush_io ∷ [])
      × (c.channel.connected ≡ false → (set p t n a c objv).1 ≡ [])
unfolding set assign_ints
set-int_iff p t n a c objv four int =
    let ends =
      finish-ok_iff t t.to_int (word objv 2) (λ xs. assign_ints n a xs c.channel) objv "int" in
    (
      rw (four, int) ends.0,
      (λ ss xs proper each on there.
          rw (four, int) (ends.1 ss xs proper each ∙ rw (on, there, take-clipped_count n xs) refl)),
      (set-refused p t n a c objv).1,
    )

-- `set` of real numbers answers TCL_OK exactly if its value is a proper list all of whose elements are
-- real numbers. Then it sends to a connected channel for which there is memory the first of them in
-- their order, at most as many as the channel has elements.
set-real_iff :
    (p : Platform) (t : Tcl) (n : ℕ) (a : Bool) (c : Command) (objv : List String)
    → length objv ≡ 4
    → word objv 3 ≡ "real"
    → (((set p t n a c objv).0.status ≡ tcl_ok) ↔ (
        (ss : List String) × (xs : List ℕ) × (t.list_elements (word objv 2) ≡ some ss)
        × (map t.to_double ss ≡ map some xs)))
      × ((ss : List String) (xs : List ℕ)
          → t.list_elements (word objv 2) ≡ some ss
          → map t.to_double ss ≡ map some xs
          → c.channel.connected ≡ true
          → a ≡ true
          → (set p t n a c objv).1 ≡ array_put_double c.channel.chid (take n xs) ∷ flush_io ∷ [])
unfolding set assign_doubles
set-real_iff p t n a c objv four real =
    let ends =
      finish-ok_iff t t.to_double (word objv 2) (λ xs. assign_doubles n a xs c.channel) objv
        "real" in
    (
      rw (four, real) ends.0,
      λ ss xs proper each on there.
          rw (four, real) (ends.1 ss xs proper each ∙ rw (on, there, take-clipped_count n xs) refl),
    )

-- `set` of a value alone, whose elements are taken for strings, answers TCL_OK exactly if the value
-- is a proper list, whether the channel is connected or not. Then it sends to a connected channel for
-- which there is memory the first of its elements in their order, at most as many as the channel has,
-- each without what follows a NUL and cut to one character less than a `dbr_string_t`; and to a
-- channel that is not connected nothing, although the documentation of Set lists that as an error.
pub set-string_iff :
    (p : Platform) (t : Tcl) (n : ℕ) (a : Bool) (c : Command) (objv : List String)
    → length objv ≡ 3
    → (((set p t n a c objv).0.status ≡ tcl_ok)
        ↔ ((ss : List String) × (t.list_elements (word objv 2) ≡ some ss)))
      × ((ss : List String)
          → t.list_elements (word objv 2) ≡ some ss
          → c.channel.connected ≡ true
          → a ≡ true
          → (set p t n a c objv).1
            ≡ array_put_string c.channel.chid
                (map (λ s. text_take (p.string_size - 1) (until_nul s)) (take n ss))
              ∷ flush_io
              ∷ [])
      × (c.channel.connected ≡ false → (set p t n a c objv).1 ≡ [])
unfolding set assign_strings
set-string_iff p t n a c objv three =
    let put : List String → List CaCall = λ xs. assign_strings p n a xs c.channel in
    let ends = finish-ok_iff t some (word objv 2) put objv "string" in
    let same : set p t n a c objv ≡ finish (convert_list t some (word objv 2)) put objv "string" =
      rw three refl in
    (
      (
        (λ e.
            let (ss, _, proper, _) =
              ends.0.0 (ap (λ (r : Reply × List CaCall). r.0.status) (sym same) ∙ e) in
            (ss, proper)),
        (λ h. rw three (ends.0.1 (h.0, h.0, h.1, refl))),
      ),
      (λ ss proper on there. rw three (
          ends.1 ss ss proper refl
          ∙ rw (on, there, take-clipped_count n ss, map-strncpy (p.string_size - 1) (take n ss))
              refl)),
      (set-refused p t n a c objv).1,
    )
