-- ===== src/Tests/Items.antt =====
-- The theorems of the lists of channels and of the strings at small inputs.
use epics_tcl.Prelude.{ℕ, ◌≡◌, refl, String, true, false, List, [], ◌∷◌}
use epics_tcl.Channel
use epics_tcl.Channel.{Channel, new, ok}
use epics_tcl.Units.{UnitChannel, Item, plain, with_units, build_all}
use epics_tcl.Units
use epics_tcl.Strings.{escape_string, unescape, strchr, unescape-escape_string}

abbrev items : List Item
items = with_units (Units.new "a") ∷ plain (new "b") ∷ []

abbrev unit_channels : List UnitChannel
unit_channels = Units.new "a" ∷ Units.new "b" ∷ []

quoted : strchr "\"\\" "\\" ≡ true
unfolding strchr
quoted = refl

unescape-escape_string_example :
    (out : String) × (escape_string "say \"yes\"" "\"\\" "\\" ≡ ok out)
    × (unescape "\\" false out ≡ "say \"yes\"")
unescape-escape_string_example = unescape-escape_string "\\" "\"\\" "say \"yes\"" quoted

-- A channel with units on a list, looked up, and its channel goes up.
abbrev fan : Units.UnitChannel
fan = Units.new "fan"

abbrev ids : ℕ → ℕ × ℕ
ids i = (10, 11)

abbrev fan_up : Channel
fan_up = (Channel.connect 10 fan.base).0

abbrev fan_units : Channel
fan_units = (Channel.connect 11 fan.units).0
