-- ===== src/Channel/Reads.antt =====
-- What the members of a channel show after an event.
use mathlib.Core.List.{head?}
use native.Mathlib.Nat.{le_refl}
use epics_tcl.Prelude.{
  ℕ, ◌<◌, ◌≡◌, true, false, none, some, length, ltb, nat_eq, take_of_length-le, arith, Bool-cases,
  inl, inr, ◌||◌,
}
use epics_tcl.Ca.{EventArgs, Platform}
use epics_tcl.Converter
use epics_tcl.Converter.{Converter}
use epics_tcl.Converter.Vectors.{length-get_vector, head-get_vector}
use epics_tcl.Channel.{
  Channel, Slot, ok, throw, get_vector, get_value, get_last_update, is_connected, update_handler,
}

module _ (p : Platform) (now : ℕ) (args : EventArgs) (c : Channel) where
  -- A normal update event of a channel with a converter leaves a vector of as many elements as the
  -- event counts, whose first is the value, the time of the event, and the connection as it was;
  -- and it fires the slot, if one is set, with its data.
  pub update_handler_normal :
      (k : Converter)
      → args.normal ≡ true
      → c.converter ≡ some k
      → let c' = (update_handler p now args c).0 in
        (length c'.vector_value ≡ args.count)
        × (0 < args.count → head? c'.vector_value ≡ some (get_value c'))
        × (get_last_update c' ≡ now)
        × (is_connected c' ≡ is_connected c)
        × ((s : Slot)
            → c.handler ≡ some s
            → (update_handler p now args c).1 ≡ some (s, c.handler_data))
        × (c.handler ≡ none → (update_handler p now args c).1 ≡ none)
  unfolding update_handler get_value get_last_update is_connected
  update_handler_normal k n h = (
    ground (arith, length-get_vector p (Converter.call p k args).0 args),
    (λ b. ground (arith, head-get_vector p k args b)),
    ground arith,
    ground arith,
    (λ s e. ground arith),
    (λ e. ground arith),
  )

  -- An event that is not normal changes nothing and fires nothing; a normal one without a converter
  -- changes nothing.
  pub update_handler_quiet :
      (args.normal ≡ false → update_handler p now args c ≡ (c, none))
      × (c.converter ≡ none → (update_handler p now args c).0 ≡ c)
  unfolding update_handler
  update_handler_quiet = ((λ e. rw e), (λ e. ground arith))

-- Of a connected channel, `getVector` returns the whole vector for every limit, so more elements
-- than a limit that is neither 0 nor as long as the vector; of another channel it throws.
pub get_vector-ignores-max :
    (c : Channel) (max : ℕ)
    → (c.connected ≡ true → get_vector max c ≡ ok c.vector_value)
      × (c.connected ≡ false → get_vector max c ≡ throw "Channel not connected")
unfolding get_vector
get_vector-ignores-max c max = (
  (λ e. rw e (elim (Bool-cases (nat_eq max 0 || ltb (length c.vector_value) max)) [
    | inl t ↦ rw (t, take_of_length-le _ c.vector_value (le_refl _))
    | inr f ↦ rw (f, take_of_length-le _ c.vector_value (le_refl _))
  ])),
  (λ e. rw e),
)
