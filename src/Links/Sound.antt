-- ===== src/Links/Sound.antt =====
-- The links of all commands fit together: each command's list is well formed, its channel's slot is
-- set exactly while it has links, and no variable is linked by two commands.
use epics_tcl.Prelude.{
  ℕ, ◌≡◌, refl, sym, ◌∙◌, ◌⊎◌, String, Bool, true, false, not, ◌&&◌, none, some, is_some, [], ◌∷◌,
  nat_eq, nat_eq_iff, is_empty, All, Bool-cases, inl, inr, arith, if◌then◌else◌, subst,
}
use epics_tcl.Channel.{mark_change}
use epics_tcl.Map.{Map, lookup, insert, erase, string_eq, address_eq, lookup-insert, lookup-erase}
use epics_tcl.Command.{Command, find}
use epics_tcl.World.{World, RefCountedChannel, done, found}
use epics_tcl.Registry.Sound.{Entry, Registered}
use epics_tcl.Links.{is_linked_in, is_linked}
use epics_tcl.Links.Lists.{IsDistinct, IsEntry}

pub record IsWell (self : ℕ) (c : Command) : Type 0 where
  pub entries : All (IsEntry self) c.linked_variables
  pub distinct : IsDistinct c.linked_variables
  pub slot : c.channel.handler ≡ (if is_empty c.linked_variables then none else some mark_change)
  pub slot_data : c.channel.handler_data ≡ (if is_empty c.linked_variables then none else some self)

abbrev pub IsLinked : String → Command → Type 0
IsLinked v c = is_some (find v c.linked_variables) ≡ true

pub record Linked (commands : Map ℕ Command) : Type 0 where
  pub well : (self : ℕ) (c : Command) → lookup self commands ≡ some c → IsWell self c
  pub exclusive :
      (a b : ℕ) (c d : Command) (v : String)
      → lookup a commands ≡ some c
      → lookup b commands ≡ some d
      → IsLinked v c
      → IsLinked v d
      → a ≡ b

-- A command changes in its place: it stays well formed, and links only variables that no other
-- command links.
module _ (self : ℕ) (c' : Command) (commands : Map ℕ Command) where
  abbrev pub Alone : Type 0
  Alone =
      (v : String) (b : ℕ) (d : Command)
      → IsLinked v c'
      → lookup b commands ≡ some d
      → IsLinked v d
      → self ≡ b

  stored :
      (s : ℕ) (d : Command)
      → lookup s (insert self c' commands) ≡ some d
      → ((self ≡ s) × (d ≡ c')) ⊎ (lookup s commands ≡ some d)
  stored s d e = elim (Bool-cases (nat_eq self s)) [
    | inl hit ↦ inl ((nat_eq_iff self s).0 hit, ground (arith, lookup-insert self s c' commands))
    | inr miss ↦ inr (ground (arith, lookup-insert self s c' commands))
  ]

  pub Linked-store : IsWell self c' → Alone → Linked commands → Linked (insert self c' commands)
  Linked-store w alone l = record {
    well = λ s d e. elim (stored s d e) [
      | inl (here, same) ↦ subst (λ x. IsWell s x) (sym same) (subst (λ x. IsWell x c') here w)
      | inr old ↦ l.well s d old
    ];
    exclusive = λ a b c d v ea eb la lb. elim (stored a c ea) [
      | inl (here, same) ↦ elim (stored b d eb) [
        | inl (here', _) ↦ sym here ∙ here'
        | inr old ↦ sym here ∙ alone v b d (subst (IsLinked v) same la) old lb
      ]
      | inr old ↦ elim (stored b d eb) [
        | inl (here, same) ↦ sym (alone v a c (subst (IsLinked v) same lb) old la) ∙ here
        | inr old' ↦ l.exclusive a b c d v old old' la lb
      ]
    ];
  }

pub Linked-erase :
    (self : ℕ) (commands : Map ℕ Command) → Linked commands → Linked (erase self commands)
Linked-erase self commands l = record {
  well = λ s d e. l.well s d (ground (arith, lookup-erase self s commands));
  exclusive = λ a b c d v ea eb.
      l.exclusive a b c d v (ground (arith, lookup-erase self a commands))
        (ground (arith, lookup-erase self b commands));
}

-- The test of `link`: it ends on a sound world, and says no exactly for a variable that no other
-- command links.
module _ (self : ℕ) (name : String) (w : World) where
  is_linked_in-done :
      (m : Map String RefCountedChannel)
      → All (Entry w.commands) m
      → (b : Bool) × (is_linked_in self name w m ≡ done b)
  unfolding is_linked_in
  is_linked_in-done [] h = (false, refl)
  is_linked_in-done ((key, info) ∷ m) ((d, live, _, _), h) =
      let (b, rest) = is_linked_in-done m h in
      rw (live, found)
        (elim (Bool-cases
          (is_some (find name d.linked_variables) && not (nat_eq info.command self))) [
            | inl t ↦ (true, rw t)
            | inr f ↦ (b, rw (f, rest))
          ])

  is_linked_in-false :
      (key : String) (info : RefCountedChannel) (d : Command) (m : Map String RefCountedChannel)
      → is_linked_in self name w m ≡ done false
      → lookup key m ≡ some info
      → lookup info.command w.commands ≡ some d
      → (is_some (find name d.linked_variables) && not (nat_eq info.command self)) ≡ false
  unfolding is_linked_in lookup
  is_linked_in-false key info d [] h k e = cc
  is_linked_in-false key info d ((key', info') ∷ m) h k e =
      ground (arith, is_linked_in-false key info d m)

  -- On a sound world, the test ends, and where it says no, no other command links the variable.
  pub is_linked-done :
      Registered w.known_channels w.commands → (b : Bool) × (is_linked self name w ≡ done b)
  unfolding is_linked
  is_linked-done r = is_linked_in-done w.known_channels r.entries

  pub is_linked-false :
      Registered w.known_channels w.commands
      → is_linked self name w ≡ done false
      → (b : ℕ) (d : Command) → lookup b w.commands ≡ some d
      → IsLinked name d
      → self ≡ b
  unfolding is_linked
  is_linked-false r free b d live linked =
      let (info, there, mine) = r.known b d live in
      ground (
        arith,
        is_linked_in-false d.name info d w.known_channels free there,
        nat_eq_iff info.command self,
      )
