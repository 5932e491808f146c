-- ===== src/Dispatch.antt =====
-- `operator()` and `Delete` of CTCLChannelCommand.cpp, and the trace of a linked variable.
use epics_tcl.Prelude.{ℕ, String, Bool, List, [], ◌∷◌, ◌==◌, ltb, length, join, if◌then◌else◌}
use epics_tcl.Ca.{Platform}
use epics_tcl.Tcl.{Tcl, Reply}
use epics_tcl.Variable
use epics_tcl.Map.{address_eq}
use epics_tcl.Command
use epics_tcl.Command.{Command, usage, word, fail}
use epics_tcl.Command.Set
use epics_tcl.World.{World, Run, done, ◌>>=◌, found, at, calls_ca}
use epics_tcl.Registry.{delete_channel}
use epics_tcl.Links
use epics_tcl.Links.{silent}

-- The subcommands; `other` is any further word.
pub data Subcommand : Type 0 where
  get set delete updatetime link unlink listlinks values size other : Subcommand

-- The chain of comparisons of `operator()`.
unfoldable pub subcommand : String → Subcommand
subcommand s =
    if s == "get"
    then Subcommand.get
    else if s == "set"
    then Subcommand.set
    else if s == "delete"
    then Subcommand.delete
    else if s == "updatetime"
    then Subcommand.updatetime
    else if s == "link"
    then Subcommand.link
    else if s == "unlink"
    then Subcommand.unlink
    else if s == "listlinks"
    then Subcommand.listlinks
    else if s == "values"
    then Subcommand.values
    else if s == "size"
    then Subcommand.size
    else Subcommand.other

-- What channel access and `malloc` answer during a command.
pub record Answers : Type 0 where
  pub element_count : ℕ
  pub allocated : Bool

-- `Delete`.
unfoldable pub delete_self : Command → World → Run (World × Reply)
delete_self c w = do w' ← delete_channel c.name w; done (w', silent)

unfoldable pub run :
    Platform → Tcl → Answers → Subcommand → ℕ → Command → List String → World → Run (World × Reply)
unfolding delete_self
run p t a Subcommand.get self c objv w = done (w, Command.get t c objv)
run p t a Subcommand.set self c objv w =
    let (r, calls) = Set.set p t a.element_count a.allocated c objv in done (calls_ca calls w, r)
run p t a Subcommand.delete self c objv w = delete_self c w
run p t a Subcommand.updatetime self c objv w = done (w, Command.updatetime t c)
run p t a Subcommand.link self c objv w = Links.link self c objv w
run p t a Subcommand.unlink self c objv w = done (Links.unlink self c objv w)
run p t a Subcommand.listlinks self c objv w = done (w, Command.list_links t c objv)
run p t a Subcommand.values self c objv w = done (w, Command.value_list t c objv)
run p t a Subcommand.size self c objv w = done (w, Command.size t a.element_count c objv)
run p t a Subcommand.other self c objv w = done (
  w,
  fail (
      join (
        word objv 0
        ∷ " "
        ∷ word objv 1
        ∷ " -- Bad subcommand for channel command\n"
        ∷ usage c
        ∷ [])),
)

-- `operator()` of the command at `self`.
unfoldable pub invoke : Platform → Tcl → Answers → ℕ → List String → World → Run (World × Reply)
unfolding run subcommand
invoke p t a self objv w = do
  c ← found (at w self)
  if ltb (length objv) 2
      then done (
        w,
        fail (join (word objv 0 ∷ " -- incorrect number of command parameters\n" ∷ usage c ∷ [])),
      )
      else run p t a (subcommand (word objv 1)) self c objv w

-- A script wrote `contents` to a variable that the command at `self` traces.
unfoldable pub variable_write : ℕ → String → World → Run World
variable_write self contents w = do
  c ← found (at w self)
  done (calls_ca (Variable.on_write contents c.channel) w)
