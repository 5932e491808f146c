-- ===== src/Socket/Names.antt =====
-- `StockStateMap` and `StateName` of CSocket.cpp, on the static map `m_StateNames`.
use epics_tcl.Prelude.{
  ◌≡◌, ◌↔◌, refl, String, Bool, true, false, not, none, some, [], ◌∷◌, is_empty, arith,
  if◌then◌else◌,
}
use epics_tcl.Map.{Map, Key, lookup, insert, erase}
use epics_tcl.Socket.Os.{State, disconnected, bound, listening, connected}

abbrev pub same_state : State → State → Bool
same_state disconnected disconnected = true
same_state bound bound = true
same_state listening listening = true
same_state connected connected = true
same_state _ _ = false

pub same_state_iff : (s t : State) → (same_state s t ≡ true) ↔ (s ≡ t)
same_state_iff s t = ground arith

instance abbrev pub state_key : Key State
state_key = record { same_key = same_state; same_key_iff = same_state_iff }

unfoldable pub stock_state_map : Map State String → Map State String
stock_state_map names =
    if not (is_empty names)
    then insert connected "Connected" (
        insert listening "Listening"
          (insert bound "Bound" (insert disconnected "Disconnected" names)))
    else names

-- `m_StateNames[state]` makes an entry with an empty text, where there is none.
unfoldable pub state_name : State → Map State String → String × Map State String
unfolding stock_state_map
state_name s names =
    let stocked = stock_state_map names in
    elim (lookup s stocked) [ none ↦ ("", insert s "" stocked) | some text ↦ (text, stocked) ]

-- The text that the documentation gives each state.
abbrev pub label : State → String
label disconnected = "Disconnected"
label bound = "Bound"
label listening = "Listening"
label connected = "Connected"

stocked-label :
    (t s : State) (x : String) (rest : Map State String)
    → lookup t (stock_state_map ((s, x) ∷ rest)) ≡ some (label t)
unfolding stock_state_map lookup insert erase
stocked-label disconnected s x rest = refl
stocked-label bound s x rest = refl
stocked-label listening s x rest = refl
stocked-label connected s x rest = refl

state_name-label :
    (t s : State) (x : String) (rest : Map State String)
    → (state_name t ((s, x) ∷ rest)).0 ≡ label t
unfolding state_name
state_name-label t s x rest = rw (stocked-label t s x rest, state_name)

-- The first `StateName` of a program, whatever the state, answers an empty text, also if sockets
-- were made before it; every later one answers the state's own name.
pub state_name_lem :
    (s t : State) (x : String) (rest : Map State String)
    → ((state_name s (stock_state_map [])).0 ≡ "")
      × ((state_name t (state_name s []).1).0 ≡ label t)
      × ((state_name t ((s, x) ∷ rest)).0 ≡ label t)
unfolding state_name stock_state_map insert lookup erase
state_name_lem s t x rest = (refl, state_name-label t s "" [], state_name-label t s x rest)
