-- ===== src/Converter/EnumConverter.antt =====
-- `CEnumConverter` of CChannel.cpp. Its state is `m_allowedValues`, which a conversion fills in.
use epics_tcl.Prelude.{
  ℕ, zero, suc, ◌+◌, String, List, [], ◌∷◌, length, get_or, is_empty, ltb, ◌==◌, not, ◌&&◌,
  print_nat, if◌then◌else◌,
}
use epics_tcl.Prelude.Int.{pos, negsuc}
use epics_tcl.Ca.{GrEnum, EventArgs, RequestType}
use epics_tcl.Converter.Loop.{collect}

unfoldable pub request_type : RequestType
request_type = RequestType.ctrl_enum

-- The loop `for (i = 0; i < no_str; i++) push_back(strs[i])`.
unfoldable pub labels : GrEnum → List String
labels e = elim e.no_str [ pos n ↦ collect e.strs n 0 | negsuc n ↦ [] ]

unfoldable pub learn : List String → GrEnum → List String
unfolding labels
learn allowed e = if is_empty allowed then labels e else allowed

-- The text of a value under the allowed values; `sprintf("%i")` where there is no text.
unfoldable pub text_of : List String → ℕ → String
text_of allowed value =
    let label = get_or allowed value "" in
    if ltb value (length allowed) && not (label == "") then label else print_nat value

-- `convert`: the allowed values afterwards, and the text.
unfoldable pub convert : List String → GrEnum → List String × String
unfolding learn text_of
convert allowed e = let known = learn allowed e in (known, text_of known e.value)

-- `operator()`.
unfoldable pub call : List String → EventArgs → List String × String
unfolding convert
call allowed args = convert allowed (args.dbr.enums 0)

-- `allowedValues`: a copy of the member.
unfoldable pub allowed_values : List String → List String
allowed_values allowed = allowed

unfoldable pub collect_enums : List String → (ℕ → GrEnum) → ℕ → ℕ → List String × List String
unfolding convert
collect_enums allowed items zero i = (allowed, [])
collect_enums allowed items (suc n) i =
    let (known, s) = convert allowed (items i) in
    let (last, rest) = collect_enums known items n (i + 1) in (last, s ∷ rest)

unfoldable pub get_vector : List String → EventArgs → List String × List String
unfolding collect_enums
get_vector allowed args = collect_enums allowed args.dbr.enums args.count 0
