-- ===== src/Trace.antt =====
-- `CLanguageTraceCallback` of CLanguageTraceCallbacks.h and CLanguageTraceCallbacks.cpp: a trace
-- callback that passes the trace on to a C function. What the function answers is a parameter.
use epics_tcl.Prelude.{ℕ, String, Option, none, some}

-- `VariableTraceCallback`: the interpreter, the variable, its element or NULL, the flags and the
-- client data; the answer is NULL or an error's text.
abbrev pub TraceFunction : Type 0 → Type 0 → Type 0
TraceFunction Interp Data = Interp → String → Option String → ℕ → Data → Option String

-- `callback` is `m_pCallback`, NULL as `none`.
pub record LanguageTraceCallback (Interp Data : Type 0) : Type 0 where
  pub callback : Option (TraceFunction Interp Data)
  pub client_data : Data

module _ {Interp Data : Type 0} where
  -- The constructor.
  unfoldable pub new : Option (TraceFunction Interp Data) → Data → LanguageTraceCallback Interp Data
  new callback client_data = record { callback = callback; client_data = client_data }

  -- `operator()`; `interp` is what `getInterpreter` answers.
  unfoldable pub fire :
      LanguageTraceCallback Interp Data → Interp → String → Option String → ℕ → Option String
  fire c interp variable element flags = elim c.callback [
    | none ↦ some "CLanguageTraceCallback::operator() invoked with null function ptr"
    | some f ↦ f interp variable element flags c.client_data
  ]
