-- ===== src/System/Operations.antt =====
-- Each operation keeps the world sound, and no operation on a sound world goes through a dangling
-- address.
use epics_tcl.Prelude.{
  ℕ, zero, suc, ◌≡◌, refl, ◌⊎◌, String, true, false, none, some, List, eq_refl, nat_eq, nat_eq_iff,
  Bool-cases, Option-cases, inl, inr, length,
}
use epics_tcl.Prelude.Int.{ℤ, pos, negsuc}
use epics_tcl.Channel
use epics_tcl.Channel.{Channel, mark_change}
use epics_tcl.Tcl.{Reply, tcl_ok}
use epics_tcl.Map.{lookup, erase, string_eq, address_eq, lookup-insert, All-lookup, insert-insert}
use epics_tcl.Command.{Command, find, word}
use epics_tcl.World.{
  World, RefCountedChannel, Run, done, at, calls_ca, calls_tcl, increment, decrement, is_zero,
}
use epics_tcl.Registry.{
  Fresh, new_command, delete_command, have_channel, delete_channel, make_channel, add_reference,
  epicschannel, epics_usage, register, unregister, delete_variables,
}
use epics_tcl.Registry.Sound.{
  IsPositive, Entry, Registered-recount, Registered-delete, Registered-new,
}
use epics_tcl.Links.Sound.{Linked, Linked-store, Linked-erase}
use epics_tcl.System.{IsSound}

-- A computation that ends, in a result of which `P` holds.
abbrev pub Ends {ℓ} : {A : Type ℓ} → (A → Type 0) → Run A → Type ℓ
Ends {A = A} P m = (a : A) × (m ≡ done a) × P a

delete_count :
    (n : ℤ)
    → IsPositive n
    → ((is_zero (decrement n) ≡ true)
        ⊎ ((is_zero (decrement n) ≡ false) × IsPositive (decrement n)))
unfolding decrement
delete_count (pos zero) h = absurd h
delete_count (pos (suc zero)) h = inl refl
delete_count (pos (suc (suc n))) h = inr (refl, tt)
delete_count (negsuc n) h = absurd h

increment-IsPositive : (n : ℤ) → IsPositive n → IsPositive (increment n)
unfolding increment
increment-IsPositive (pos zero) h = absurd h
increment-IsPositive (pos (suc n)) h = tt
increment-IsPositive (negsuc n) h = absurd h

-- The world after the last reference to the channel of a command goes.
abbrev pub without : String → ℕ → Command → World → World
without name self c w = calls_tcl (delete_variables c.linked_variables) (
    calls_ca (Channel.destroy c.channel).1
      (record (unregister name w) { commands = erase self w.commands }))

delete_command-done :
    (name : String) (self : ℕ) (c : Command) (w : World)
    → lookup self w.commands ≡ some c
    → delete_command self (unregister name w) ≡ done (without name self c w)
unfolding delete_command
delete_command-done name self c w live = rw live

module _ (name : String) (info : RefCountedChannel) (w : World)
    (here : have_channel name w ≡ some info) where
  -- With the last reference the command goes.
  pub delete_channel-last :
      (c : Command)
      → is_zero (decrement info.refcount) ≡ true
      → lookup info.command w.commands ≡ some c
      → delete_channel name w ≡ done (without name info.command c w)
  unfolding delete_channel
  delete_channel-last c last live =
      rw (here, delete_channel) (rw last (delete_command-done name info.command c w live))

  -- Otherwise the count falls.
  pub delete_channel-more :
      is_zero (decrement info.refcount) ≡ false
      → delete_channel name w
        ≡ done (register name (record info { refcount = decrement info.refcount }) w)
  unfolding delete_channel
  delete_channel-more more = rw (here, delete_channel) (rw more)

-- `deleteChannel` ends and leaves a sound world.
pub delete_channel-Ends :
    (name : String) (w : World) → IsSound w → Ends IsSound (delete_channel name w)
unfolding delete_channel
delete_channel-Ends name w s = elim (Option-cases (have_channel name w)) [
  | inl new ↦ (w, rw (new, delete_channel), s)
  | inr (info, here) ↦
      let r = s.registered in
      let (c, live, _, positive) =
        All-lookup (Entry w.commands) name w.known_channels r.entries here in
      elim (delete_count info.refcount positive) [
        | inl last ↦ (
          without name info.command c w,
          delete_channel-last name info w here c last live,
          record {
            registered = Registered-delete name info (pos 0) w.known_channels w.commands here r;
            linked = Linked-erase info.command w.commands s.linked;
          },
        )
        | inr (more, left) ↦ (
          register name (record info { refcount = decrement info.refcount }) w,
          delete_channel-more name info w here more,
          record {
            registered =
                Registered-recount name info (decrement info.refcount) w.known_channels w.commands
                  here left r;
            linked = s.linked;
          },
        )
      ]
]

-- A new command links nothing.
new_command-Linked :
    (f : Fresh) (name : String) (w : World)
    → lookup f.address w.commands ≡ none
    → Linked w.commands
    → Linked (new_command f name w).commands
unfolding new_command Channel.new Channel.connect find
new_command-Linked f name w free l =
    Linked-store f.address _ w.commands
      (record { entries = tt; distinct = tt; slot = refl; slot_data = refl })
      (λ v b d lv live ld. cc) l

-- What `epicschannel name` makes of a name that is not known, and of one that is.
abbrev pub with_new : Fresh → String → World → World
with_new f name w =
    register name (record { refcount = pos 1; command = f.address }) (make_channel f name w)

abbrev pub with_more : String → RefCountedChannel → World → World
with_more name info w = register name (record info { refcount = increment info.refcount }) w

abbrev pub answered : World → World × Reply
answered w = (w, record { status = tcl_ok; result = none })

module _ (f : Fresh) (command : String) (objv : List String) (w : World)
    (two : length objv ≡ 2) where
  pub epicschannel-new :
      have_channel (word objv 1) w ≡ none
      → epicschannel f command objv w ≡ done (answered (with_new f (word objv 1) w))
  unfolding epicschannel make_channel add_reference have_channel increment
  epicschannel-new new =
      rw (two, new)
        (rw (
          lookup-insert (word objv 1) (word objv 1)
              (record { refcount = pos 0; command = f.address }) w.known_channels,
          eq_refl (word objv 1),
        ))

  pub epicschannel-known :
      (info : RefCountedChannel)
      → have_channel (word objv 1) w ≡ some info
      → epicschannel f command objv w ≡ done (answered (with_more (word objv 1) info w))
  unfolding epicschannel add_reference have_channel
  epicschannel-known info old = rw two (rw old (rw old))

pub with_new-IsSound :
    (f : Fresh) (name : String) (w : World)
    → have_channel name w ≡ none
    → at w f.address ≡ none
    → IsSound w
    → IsSound (with_new f name w)
unfolding make_channel new_command have_channel
with_new-IsSound f name w new free s = record {
  registered =
      rw
        (insert-insert name (record { refcount = pos 0; command = f.address })
          (record { refcount = pos 1; command = f.address }) w.known_channels)
        (Registered-new name _ f.address w.known_channels w.commands free refl new s.registered);
  linked = new_command-Linked f name w free s.linked;
}

pub with_more-IsSound :
    (name : String) (info : RefCountedChannel) (w : World)
    → have_channel name w ≡ some info
    → IsSound w
    → IsSound (with_more name info w)
unfolding have_channel
with_more-IsSound name info w here s =
    let (c, live, _, positive) =
      All-lookup (Entry w.commands) name w.known_channels s.registered.entries here in
    record {
      registered =
          Registered-recount name info (increment info.refcount) w.known_channels w.commands here
            (increment-IsPositive info.refcount positive) s.registered;
      linked = s.linked;
    }

-- `epicschannel` ends and leaves a sound world, if `new` returns an address where no command lives.
pub epicschannel-Ends :
    (f : Fresh) (command : String) (objv : List String) (w : World)
    → at w f.address ≡ none
    → IsSound w
    → Ends (λ x. IsSound x.0) (epicschannel f command objv w)
unfolding epicschannel
epicschannel-Ends f command objv w free s = elim (Bool-cases (nat_eq (length objv) 2)) [
  | inr wrong ↦ ((w, record { status = tcl_ok; result = some (epics_usage command) }), rw wrong, s)
  | inl right ↦
      let two = (nat_eq_iff (length objv) 2).0 right in
      elim (Option-cases (have_channel (word objv 1) w)) [
        | inl new ↦ (
          answered (with_new f (word objv 1) w),
          epicschannel-new f command objv w two new,
          with_new-IsSound f (word objv 1) w new free s,
        )
        | inr (info, old) ↦ (
          answered (with_more (word objv 1) info w),
          epicschannel-known f command objv w two info old,
          with_more-IsSound (word objv 1) info w old s,
        )
      ]
]
