-- ===== src/Tests/Packages.antt =====
-- The start of the package, with three steps of the polling thread among those of `Epics_Init`.
use epics_tcl.Prelude.{ℕ, ◌≡◌, refl, Bool, true, false, none, some, List, [], ◌∷◌, ◌++◌}
use epics_tcl.Package.{
  Surroundings, attach_context, finished, absent, loaded, init_step, poll_step, interleave,
}
use epics_tcl.Package.Attached.{calls_before, polls, Attached, interleave_lem}
use epics_tcl.Trace
use epics_tcl.Trace.{LanguageTraceCallback}

abbrev turns : List Bool
turns = true ∷ false ∷ false ∷ false ∷ false ∷ false ∷ false ∷ true ∷ true ∷ []

abbrev usual : Surroundings
usual = record { with_stubs = true; current = some 3; makes_thread = true }

reached :
    (interleave usual turns loaded).calls
    ≡ calls_before true finished ++ (attach_context (some 3) ∷ polls 1)
unfolding interleave init_step poll_step
reached = refl

-- Where the thread cannot be made, the start ends without it.
without_thread : interleave (record usual { makes_thread = false }) turns loaded ≡ record {
  stage = finished;
  poller = absent;
  epics_context = some 3;
  calls = calls_before true finished;
}
unfolding interleave init_step poll_step
without_thread = refl

interleave_lem_example : Attached usual (interleave usual turns loaded)
interleave_lem_example = interleave_lem usual turns

no_function : LanguageTraceCallback ℕ ℕ
unfolding Trace.new
no_function = Trace.new none 0

null_trace :
    Trace.fire no_function 0 "v" none 0
    ≡ some "CLanguageTraceCallback::operator() invoked with null function ptr"
unfolding Trace.fire Trace.new no_function
null_trace = refl
