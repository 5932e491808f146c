-- ===== src/Channel/Put.antt =====
-- The assignments of `CChannel`: one value, and vectors of the three types. The channel itself is
-- left as it is, so that a member returns its calls of channel access alone (the value that it
-- returns is its argument). `element_count` is what `ca_element_count` answers, and `allocated`
-- whether `malloc` delivers. Vectors have fewer than 2 ^ 31 elements, so that `int count` is exact.
use epics_tcl.Prelude.{
  ℕ, zero, suc, ◌-◌, String, Bool, ◌&&◌, List, [], ◌∷◌, map, length, take, ltb, nat_eq,
  if◌then◌else◌,
}
use epics_tcl.Prelude.Int.{ℤ}
use Prim.Native.Char.{code}
use epics_tcl.Ca.{
  CaCall, put_string, put_int, put_double, array_put_string, array_put_long, array_put_double,
  flush_io, Platform,
}
use epics_tcl.Channel.{Channel}

unfoldable pub assign_string : String → Channel → List CaCall
assign_string value c = if c.connected then put_string c.chid value ∷ flush_io ∷ [] else []

unfoldable pub assign_int : ℤ → Channel → List CaCall
assign_int value c = if c.connected then put_int c.chid value ∷ flush_io ∷ [] else []

unfoldable pub assign_double : ℕ → Channel → List CaCall
assign_double value c = if c.connected then put_double c.chid value ∷ flush_io ∷ [] else []

-- `strncpy(dest, s, n)` over zeroed memory: at most n bytes, up to the first NUL.
unfoldable pub strncpy : ℕ → String → String
strncpy zero s = String.[]
strncpy (suc n) String.[] = String.[]
strncpy (suc n) (String.◌∷◌ c s) =
    if nat_eq (code c) 0 then String.[] else String.◌∷◌ c (strncpy n s)

unfoldable pub clipped_count : ℕ → ℕ → ℕ
clipped_count element_count count = if ltb element_count count then element_count else count

unfoldable pub assign_strings : Platform → ℕ → Bool → List String → Channel → List CaCall
unfolding clipped_count
assign_strings p element_count allocated rhs c =
    let count = clipped_count element_count (length rhs) in
    if c.connected && allocated
    then array_put_string c.chid (map (strncpy (p.string_size - 1)) (take count rhs))
      ∷ flush_io
      ∷ []
    else []

-- `dbr_long_t` and `int` both have 32 bits.
unfoldable pub assign_ints : ℕ → Bool → List ℤ → Channel → List CaCall
unfolding clipped_count
assign_ints element_count allocated rhs c =
    let count = clipped_count element_count (length rhs) in
    if c.connected && allocated then array_put_long c.chid (take count rhs) ∷ flush_io ∷ [] else []

unfoldable pub assign_doubles : ℕ → Bool → List ℕ → Channel → List CaCall
unfolding clipped_count
assign_doubles element_count allocated rhs c =
    let count = clipped_count element_count (length rhs) in
    if c.connected && allocated
    then array_put_double c.chid (take count rhs) ∷ flush_io ∷ []
    else []
