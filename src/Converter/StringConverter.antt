-- ===== src/Converter/StringConverter.antt =====
-- `CStringConverter` of CChannel.cpp.
use epics_tcl.Prelude.{ℕ, String, List, [], ◌∷◌}
use epics_tcl.Ca.{Memory, EventArgs, RequestType}
use epics_tcl.Converter.Loop.{collect}

unfoldable pub request_type : RequestType
request_type = RequestType.string

unfoldable pub convert : Memory → ℕ → String
convert dbr i = dbr.strings i

-- `operator()`.
unfoldable pub call : EventArgs → String
unfolding convert
call args = convert args.dbr 0

unfoldable pub allowed_values : List String
allowed_values = "string" ∷ []

unfoldable pub get_vector : EventArgs → List String
get_vector args = collect (convert args.dbr) args.count 0
