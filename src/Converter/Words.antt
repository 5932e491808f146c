-- ===== src/Converter/Words.antt =====
-- What `CIntegerConverter` reads at an element.
use epics_tcl.Prelude.{ℕ, ◌+◌, ◌-◌, ◌^◌, ◌<◌, ◌≡◌, ◌↔◌, true, false, arith, ltb, if◌then◌else◌}
use epics_tcl.Prelude.Int.{signed}
use epics_tcl.Ca.{Memory, Platform}
use epics_tcl.Converter.IntegerConverter.{read_long}

-- The 32-bit word that must follow a 32-bit integer, to make a 64-bit integer of the same value.
abbrev pub sign_word : ℕ → ℕ
sign_word w = if ltb w (2 ^ 31) then 0 else 2 ^ 32 - 1

-- Where `long` has 32 bits, an element is read as the 32-bit integer that it is.
pub read_long_32 :
    (p : Platform) (dbr : Memory) (i : ℕ)
    → p.long_is_64 ≡ false
    → read_long p dbr i ≡ signed 32 (dbr.words i)
unfolding read_long
read_long_32 p dbr i h = rw h

-- Where `long` has 64 bits, an element is read as the 32-bit integer that it is exactly if the next
-- 32-bit word of the memory happens to be its sign extension.
pub read_long_64 :
    (p : Platform) (dbr : Memory) (i : ℕ)
    → p.long_is_64 ≡ true
    → dbr.words i < 2 ^ 32
    → dbr.words (i + 1) < 2 ^ 32
    → (read_long p dbr i ≡ signed 32 (dbr.words i)) ↔ (dbr.words (i + 1) ≡ sign_word (dbr.words i))
unfolding read_long
read_long_64 p dbr i h a b = ground arith
