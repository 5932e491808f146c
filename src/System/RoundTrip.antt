-- ===== src/System/RoundTrip.antt =====
-- A deletion undoes a creation.
use epics_tcl.Prelude.{
  ℕ, zero, suc, ◌≡◌, refl, String, false, none, List, eq_iff, eq_refl, length, nat_eq_iff,
  Option-cases, inl, inr, arith,
}
use epics_tcl.Prelude.Int.{ℤ, pos, negsuc}
use epics_tcl.Map.{string_eq, address_eq, lookup-insert, lookup-erase, All-lookup}
use epics_tcl.Command.{word}
use epics_tcl.World.{World, RefCountedChannel, done, at, increment, decrement, is_zero}
use epics_tcl.Registry.{
  have_channel, epicschannel, delete_channel, make_channel, new_command, Fresh, register, created,
}
use epics_tcl.Registry.Sound.{IsPositive, Entry}
use epics_tcl.System.{IsSound}
use epics_tcl.System.Operations.{
  epicschannel-new, epicschannel-known, with_new, with_more, without, answered, delete_channel-last,
  delete_channel-more,
}

decrement-increment : (n : ℤ) → decrement (increment n) ≡ n
unfolding increment decrement
decrement-increment (pos n) = refl
decrement-increment (negsuc zero) = refl
decrement-increment (negsuc (suc n)) = refl

not-is_zero : (n : ℤ) → IsPositive n → is_zero n ≡ false
not-is_zero (pos zero) h = absurd h
not-is_zero (pos (suc n)) h = refl
not-is_zero (negsuc n) h = refl

-- The same channels are known, with the same counts, and the same commands live.
pub record IsAlike (w w' : World) : Type 0 where
  pub channels : (name : String) → have_channel name w' ≡ have_channel name w
  pub commands : (self : ℕ) → at w' self ≡ at w self

-- On a sound world, after `epicschannel name`, with a new object at an address where none lives, the
-- deletion of the channel ends with the same channels known, under the same counts, and the same
-- commands alive as before both.
pub delete_channel-epicschannel :
    (f : Fresh) (command : String) (objv : List String) (w : World)
    → length objv ≡ 2
    → at w f.address ≡ none
    → IsSound w
    → (w' : World) × (w'' : World) × (epicschannel f command objv w ≡ done (answered w'))
      × (delete_channel (word objv 1) w' ≡ done w'')
      × IsAlike w w''
unfolding have_channel make_channel new_command decrement
delete_channel-epicschannel f command objv w two free s =
    let name = word objv 1 in
    elim (Option-cases (have_channel name w)) [
      | inl new ↦
          let info : RefCountedChannel = record { refcount = pos 1; command = f.address } in
          let w' = with_new f name w in
          (
            w',
            without name f.address (created f name) w',
            epicschannel-new f command objv w two new,
            delete_channel-last name info w'
                (rw (
                  lookup-insert name name info (make_channel f name w).known_channels,
                  eq_refl name,
                ))
                (created f name) refl
                (simp (lookup-insert) (ground (arith, nat_eq_iff f.address f.address))),
            record {
              channels = λ n. simp (lookup-insert, lookup-erase) (ground (arith, eq_iff name n));
              commands =
                  λ a. simp (lookup-insert, lookup-erase) (ground (arith, nat_eq_iff f.address a));
            },
          )
      | inr (info, old) ↦
          let (c, live, _, positive) =
            All-lookup (Entry w.commands) name w.known_channels s.registered.entries old in
          let w' = with_more name info w in
          let more : RefCountedChannel = record info { refcount = increment info.refcount } in
          let back = decrement-increment info.refcount in
          (
            w',
            register name (record more { refcount = decrement more.refcount }) w',
            epicschannel-known f command objv w two info old,
            delete_channel-more name more w'
                (rw (lookup-insert name name more w.known_channels, eq_refl name))
                (rw back (not-is_zero info.refcount positive)),
            record {
              channels = λ n. simp (lookup-insert) (ground (arith, eq_iff name n, back));
              commands = λ a. refl;
            },
          )
    ]
