-- ===== src/Tests/Channels.antt =====
-- The theorems of the converters and of the channel at small inputs.
use epics_tcl.Prelude.{
  ◌≤◌, ◌<◌, ◌≡◌, refl, ◌↔◌, String, true, some, List, [], ◌∷◌, ◌++◌, length, All, text_length,
  arith,
}
use epics_tcl.Prelude.Int.{pos, signed}
use epics_tcl.Ca.{EventArgs, CaCall, array_put_string, array_put_long, array_put_double, flush_io}
use epics_tcl.Converter.IntegerConverter.{read_long}
use epics_tcl.Converter.Words.{read_long_32, read_long_64, sign_word}
use epics_tcl.Channel
use epics_tcl.Channel.{
  new, connect, state_handler, get_vector, ok, throw, is_connected, get_last_update,
}
use epics_tcl.Channel.Put.{assign_strings, assign_ints, assign_doubles}
use epics_tcl.Converter
use epics_tcl.Channel.Labels.{updated, after}
use epics_tcl.Channel.PutBounds.{assign_strings_bounds, assign_exact}
use epics_tcl.Channel.Lifecycle.Kept.{Life-Consistent}
use epics_tcl.Channel.Lifecycle.{Life, born, connects, changes, Consistent}
use epics_tcl.Tests.{wide, narrow, on_off, event, memory, going_up, online}

abbrev enumerated : Channel.Channel
enumerated = record online { converter = some (Converter.enum []) }

abbrev renamed : EventArgs
renamed = record event {
  dbr = record memory { enums = λ i. record on_off { strs = λ j. "new"; value = 5 } };
}

-- Another event with other labels comes after the first.
abbrev named : Channel.Channel
named = after wide (updated 4 event ∷ updated 5 renamed ∷ []) enumerated

read_long_32_example : read_long narrow memory 0 ≡ signed 32 5
read_long_32_example = read_long_32 narrow memory 0 refl

read_long_64_example : (read_long wide memory 0 ≡ signed 32 5) ↔ (5 ≡ sign_word 5)
read_long_64_example = read_long_64 wide memory 0 refl (omega arith) (omega arith)

assign_strings_bounds_example :
    (xs : List String) × (assign_strings wide 1 true ("a" ∷ "b" ∷ []) online
      ≡ array_put_string 10 xs ∷ flush_io ∷ [])
    × (length xs ≤ 1)
    × (length xs ≤ 2)
    × All (λ s. text_length s < 40) xs
assign_strings_bounds_example =
    assign_strings_bounds online refl wide 1 ("a" ∷ "b" ∷ []) (omega arith)

assign_exact_example :
    (assign_strings wide 2 true ("a" ∷ []) online ≡ array_put_string 10 ("a" ∷ []) ∷ flush_io ∷ [])
    × (assign_ints 2 true (pos 7 ∷ []) online ≡ array_put_long 10 (pos 7 ∷ []) ∷ flush_io ∷ [])
    × (assign_doubles 2 true (3 ∷ []) online ≡ array_put_double 10 (3 ∷ []) ∷ flush_io ∷ [])
assign_exact_example =
    assign_exact online refl wide 2 ("a" ∷ []) (pos 7 ∷ []) (3 ∷ []) (omega arith) ((refl, tt), tt)
      (omega arith) (omega arith)

-- A channel that is made, connected, and reported up, and the calls so far.
abbrev waiting : Channel.Channel
waiting = (connect 10 (new "ch")).0

abbrev running : Channel.Channel
running = (state_handler going_up waiting).0

abbrev log : List CaCall
log = (connect 10 (new "ch")).1 ++ (state_handler going_up waiting).1

life : Life wide running log
unfolding new connect
life = changes (connects (born "ch") 10) going_up refl

Life-Consistent_example : Consistent running log
Life-Consistent_example = Life-Consistent life
