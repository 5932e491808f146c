-- ===== src/Converter/IntegerConverter.antt =====
-- `CIntegerConverter` of CChannel.cpp. The elements are `dbr_long_t`, of 32 bits, and `convert`
-- reads a `long` at the element's address.
use epics_tcl.Prelude.{ℕ, ◌+◌, ◌*◌, ◌^◌, String, List, [], ◌∷◌, print_int, if◌then◌else◌}
use epics_tcl.Prelude.Int.{ℤ, signed}
use epics_tcl.Ca.{Memory, EventArgs, RequestType, Platform}
use epics_tcl.Converter.Loop.{collect}

unfoldable pub request_type : RequestType
request_type = RequestType.long

-- `*((long*)element)`, little-endian.
unfoldable pub read_long : Platform → Memory → ℕ → ℤ
read_long p dbr i =
    if p.long_is_64
    then signed 64 (dbr.words i + 2 ^ 32 * dbr.words (i + 1))
    else signed 32 (dbr.words i)

unfoldable pub convert : Platform → Memory → ℕ → String
unfolding read_long
convert p dbr i = print_int (read_long p dbr i)

-- `operator()`.
unfoldable pub call : Platform → EventArgs → String
unfolding convert
call p args = convert p args.dbr 0

unfoldable pub allowed_values : List String
allowed_values = "int" ∷ []

unfoldable pub get_vector : Platform → EventArgs → List String
get_vector p args = collect (convert p args.dbr) args.count 0
