-- ===== src/System/Counts.antt =====
-- The registry against a map from names to numbers of references.
use epics_tcl.Prelude.{
  ℕ, zero, suc, ◌⊎◌, ◌-◌, ◌+◌, ◌≡◌, refl, String, Option, none, some, List, ◌==◌, eq_iff, length,
  Option-cases, inl, inr, arith, if◌then◌else◌,
}
use epics_tcl.Prelude.Int.{ℤ, pos, negsuc}
use epics_tcl.Map.{string_eq, lookup-insert, lookup-erase, All-lookup}
use epics_tcl.Command.{word}
use epics_tcl.World.{World, RefCountedChannel, done, at, increment, decrement}
use epics_tcl.Registry.{
  Fresh, have_channel, epicschannel, delete_channel, register, make_channel, new_command,
}
use epics_tcl.Registry.Sound.{Entry, IsPositive}
use epics_tcl.System.{IsSound}
use epics_tcl.System.Operations.{
  epicschannel-new, epicschannel-known, with_new, with_more, without, answered, delete_channel-last,
  delete_channel-more,
}

-- What a client of the registry sees: how many references each name has, 0 for a name not known.
abbrev pub refcount_of : Option RefCountedChannel → ℕ
refcount_of none = 0
refcount_of (some info) = elim info.refcount [ pos n ↦ n | negsuc n ↦ 0 ]

abbrev pub references : World → String → ℕ
references w name = refcount_of (have_channel name w)

positive_cases : (n : ℤ) → IsPositive n → (n ≡ pos 1) ⊎ ((m : ℕ) × (n ≡ pos (suc (suc m))))
positive_cases (pos zero) h = absurd h
positive_cases (pos (suc zero)) h = inl refl
positive_cases (pos (suc (suc m))) h = inr (m, refl)
positive_cases (negsuc n) h = absurd h

increment-references :
    (n : ℤ) (command : ℕ)
    → IsPositive n
    → refcount_of (some (record { refcount = increment n; command = command }))
      ≡ refcount_of (some (record { refcount = n; command = command })) + 1
unfolding increment
increment-references (pos n) command h = omega arith
increment-references (negsuc n) command h = absurd h

-- The references of every name after `deleteChannel name`.
abbrev Less : String → World → World → Type 0
Less name w w' =
    (n : String) → references w' n ≡ (if name == n then references w n - 1 else references w n)

module _ (name : String) (w : World) (s : IsSound w) where
  delete_channel-references : (w' : World) × (delete_channel name w ≡ done w') × Less name w w'
  unfolding delete_channel have_channel decrement
  delete_channel-references = elim (Option-cases (have_channel name w)) [
    | inl new ↦ (w, rw (new, delete_channel), λ n. ground (arith, eq_iff name n))
    | inr (info, old) ↦
        let (c, live, _, positive) =
          All-lookup (Entry w.commands) name w.known_channels s.registered.entries old in
        elim (positive_cases info.refcount positive) [
          | inl single ↦ (
            without name info.command c w,
            delete_channel-last name info w old c (rw single) live,
            λ n. simp (lookup-erase) (ground (arith, eq_iff name n)),
          )
          | inr (m, several) ↦ (
            register name (record info { refcount = decrement info.refcount }) w,
            delete_channel-more name info w old (rw several),
            λ n. simp (lookup-insert) (ground (arith, eq_iff name n)),
          )
        ]
  ]

-- On a sound world, `epicschannel name`, with a new object at an address where none lives, answers
-- TCL_OK and adds one to the references of the name and to no other's; and `deleteChannel` ends and
-- takes one off, down to 0, from the references of the name and of no other.
pub references_lem :
    (f : Fresh) (command : String) (objv : List String) (w : World)
    → length objv ≡ 2
    → at w f.address ≡ none
    → IsSound w
    → let name = word objv 1 in
      ((w' : World) × (epicschannel f command objv w ≡ done (answered w'))
        × ((n : String)
            → references w' n ≡ (if name == n then references w n + 1 else references w n)))
      × ((w' : World) × (delete_channel name w ≡ done w')
          × ((n : String)
              → references w' n ≡ (if name == n then references w n - 1 else references w n)))
unfolding have_channel make_channel new_command increment
references_lem f command objv w two free s =
    let name = word objv 1 in
    (
      elim (Option-cases (have_channel name w)) [
        | inl new ↦ (
          with_new f name w,
          epicschannel-new f command objv w two new,
          λ n. simp (lookup-insert) (ground (arith, eq_iff name n)),
        )
        | inr (info, old) ↦
            let (c, live, _, positive) =
              All-lookup (Entry w.commands) name w.known_channels s.registered.entries old in
            (
              with_more name info w,
              epicschannel-known f command objv w two info old,
              λ n. simp (lookup-insert) (
                  ground (
                    arith,
                    eq_iff name n,
                    increment-references info.refcount info.command positive,
                  )),
            )
      ],
      delete_channel-references name w s,
    )
