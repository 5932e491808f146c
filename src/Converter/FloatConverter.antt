-- ===== src/Converter/FloatConverter.antt =====
-- `CFloatConverter` of CChannel.cpp.
use epics_tcl.Prelude.{ℕ, String, List, [], ◌∷◌}
use epics_tcl.Ca.{Memory, EventArgs, RequestType, Platform}
use epics_tcl.Converter.Loop.{collect}

unfoldable pub request_type : RequestType
request_type = RequestType.double

unfoldable pub convert : Platform → Memory → ℕ → String
convert p dbr i = p.print_double (dbr.doubles i)

-- `operator()`.
unfoldable pub call : Platform → EventArgs → String
unfolding convert
call p args = convert p args.dbr 0

unfoldable pub allowed_values : List String
allowed_values = "float" ∷ []

unfoldable pub get_vector : Platform → EventArgs → List String
get_vector p args = collect (convert p args.dbr) args.count 0
