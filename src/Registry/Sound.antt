-- ===== src/Registry/Sound.antt =====
-- The known channels and the live commands fit together, and every operation keeps it so.
use epics_tcl.Prelude.{
  ℕ, zero, suc, ◌≡◌, refl, sym, ◌∙◌, ap, String, false, none, some, ◌==◌, eq_iff, nat_eq,
  nat_eq_iff, All, Bool-cases, inl, inr, arith, subst,
}
use epics_tcl.Prelude.Int.{ℤ, pos, negsuc}
use epics_tcl.Map.{
  Map, lookup, insert, erase, string_eq, address_eq, lookup-insert, lookup-erase, All-lookup,
  All-map, All-erase, All-insert,
}
use epics_tcl.Command.{Command}
use epics_tcl.World.{RefCountedChannel}

abbrev pub IsPositive : ℤ → Type 0
IsPositive (pos zero) = ⊥
IsPositive (pos (suc n)) = Unit
IsPositive (negsuc n) = ⊥

-- An entry counts at least one reference, and names a live command by that command's own name.
abbrev pub Entry : Map ℕ Command → String × RefCountedChannel → Type 0
Entry commands (name, info) =
    (c : Command) × (lookup info.command commands ≡ some c)
    × (c.name ≡ name)
    × IsPositive info.refcount

pub record Registered (channels : Map String RefCountedChannel) (commands : Map ℕ Command)
    : Type 0 where
  pub entries : All (Entry commands) channels
  pub known :
      (self : ℕ) (c : Command)
      → lookup self commands ≡ some c
      → (info : RefCountedChannel) × (lookup c.name channels ≡ some info) × (info.command ≡ self)

-- A command that changes in its place keeps its name.
module _ (self : ℕ) (c c' : Command) (commands : Map ℕ Command) where
  Entry-store :
      c'.name ≡ c.name
      → lookup self commands ≡ some c
      → (x : String × RefCountedChannel) → Entry commands x
      → Entry (insert self c' commands) x
  Entry-store same here (name, info) (d, at, named, positive) =
      elim (Bool-cases (nat_eq self info.command)) [
        | inl hit ↦ (
          c',
          rw (lookup-insert self info.command c' commands, hit),
          same ∙ ground (arith, nat_eq_iff self info.command),
          positive,
        )
        | inr miss ↦ (d, rw (lookup-insert self info.command c' commands, miss) at, named, positive)
      ]

  pub Registered-store :
      {channels : Map String RefCountedChannel}
      → c'.name ≡ c.name
      → lookup self commands ≡ some c
      → Registered channels commands
      → Registered channels (insert self c' commands)
  Registered-store {channels} same here r = record {
    entries = All-map _ _ (Entry-store same here) channels r.entries;
    known = λ s d e. elim (Bool-cases (nat_eq self s)) [
      | inl hit ↦
          let (info, there, mine) = r.known self c here in
          let self≡s : self ≡ s = (nat_eq_iff self s).0 hit in
          let c'≡d : c' ≡ d = ground (arith, lookup-insert self s c' commands) in
          (
            info,
            subst (λ n. lookup n channels ≡ some info)
                (sym same ∙ ap (λ (x : Command). x.name) c'≡d) there,
            mine ∙ self≡s,
          )
      | inr miss ↦ r.known s d (ground (arith, lookup-insert self s c' commands))
    ];
  }

-- The count of a known channel changes.
module _ (name : String) (info : RefCountedChannel) (n : ℤ)
    (channels : Map String RefCountedChannel) (commands : Map ℕ Command) where
  pub Registered-recount :
      lookup name channels ≡ some info
      → IsPositive n
      → Registered channels commands
      → Registered (insert name (record info { refcount = n }) channels) commands
  Registered-recount here positive r =
      let (c, at, named, _) = All-lookup (Entry commands) name channels r.entries here in
      record {
        entries = All-insert _ name _ channels (c, at, named, positive) r.entries;
        known = λ s d e.
            let (info', there, mine) = r.known s d e in
            elim (Bool-cases (name == d.name)) [
              | inl hit ↦ (
                record info { refcount = n },
                rw (lookup-insert name d.name (record info { refcount = n }) channels, hit),
                ground (arith, eq_iff name d.name),
              )
              | inr miss ↦ (
                info',
                rw (lookup-insert name d.name (record info { refcount = n }) channels, miss) there,
                mine,
              )
            ];
      }

  -- The last reference goes, and the command with it.
  Entry-delete :
      (c : Command)
      → lookup info.command commands ≡ some c
      → c.name ≡ name
      → (x : String × RefCountedChannel) → Entry commands x × ((x.0 == name) ≡ false)
      → Entry (erase info.command commands) x
  Entry-delete c at named (key, i) ((d, there, called, positive), other) =
      elim (Bool-cases (nat_eq info.command i.command)) [
        | inl hit ↦ absurd (ground (arith, nat_eq_iff info.command i.command, eq_iff key name))
        | inr miss ↦
            (d, rw (lookup-erase info.command i.command commands, miss) there, called, positive)
      ]

  pub Registered-delete :
      lookup name channels ≡ some info
      → Registered channels commands
      → Registered (erase name channels) (erase info.command commands)
  Registered-delete here r =
      let (c, at, named, _) = All-lookup (Entry commands) name channels r.entries here in
      record {
        entries =
            All-map _ _ (Entry-delete c at named) (erase name channels)
              (All-erase (Entry commands) name channels r.entries);
        known = λ s d e.
            let away : lookup s commands ≡ some d =
              ground (arith, lookup-erase info.command s commands) in
            let (info', there, mine) = r.known s d away in
            elim (Bool-cases (name == d.name)) [
              | inl hit ↦ absurd (
                  ground (
                    arith,
                    eq_iff name d.name,
                    nat_eq_iff info.command s,
                    lookup-erase info.command s commands,
                  ))
              | inr miss ↦ (info', rw (lookup-erase name d.name channels, miss) there, mine)
            ];
      }

-- A new command at an address where none is, under a name that is not known.
module _ (name : String) (c : Command) (self : ℕ) (channels : Map String RefCountedChannel)
    (commands : Map ℕ Command) (free : lookup self commands ≡ none) where
  Entry-new : (x : String × RefCountedChannel) → Entry commands x → Entry (insert self c commands) x
  Entry-new (key, i) (d, there, called, positive) = elim (Bool-cases (nat_eq self i.command)) [
    | inl hit ↦ absurd (ground (arith, nat_eq_iff self i.command))
    | inr miss ↦ (d, rw (lookup-insert self i.command c commands, miss) there, called, positive)
  ]

  pub Registered-new :
      c.name ≡ name
      → lookup name channels ≡ none
      → Registered channels commands
      → Registered
          (insert name (record { refcount = pos 1; command = self }) channels)
          (insert self c commands)
  Registered-new named unknown r =
      let info : RefCountedChannel = record { refcount = pos 1; command = self } in
      record {
        entries =
            All-insert _ name info channels
              (c, rw (lookup-insert self self c commands, (nat_eq_iff self self).1 refl), named, tt)
              (All-map _ _ Entry-new channels r.entries);
        known = λ s d e. elim (Bool-cases (nat_eq self s)) [
          | inl hit ↦ (
            info,
            ground (
              arith,
              lookup-insert self s c commands,
              lookup-insert name d.name info channels,
              eq_iff name d.name,
            ),
            (nat_eq_iff self s).0 hit,
          )
          | inr miss ↦
              let old : lookup s commands ≡ some d =
                ground (arith, lookup-insert self s c commands) in
              let (info', there, mine) = r.known s d old in
              (
                info',
                ground (arith, lookup-insert name d.name info channels, eq_iff name d.name),
                mine,
              )
        ];
      }
