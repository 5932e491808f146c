-- ===== src/System/Errors.antt =====
-- A command that fails changes nothing.
use mathlib.Core.List.{append-nil}
use epics_tcl.Prelude.{
  ℕ, ◌≡◌, ◌≢◌, refl, ap, sym, ◌∙◌, String, Bool, true, false, List, [], length, nat_eq, ltb,
  Bool-cases, Option-cases, inl, inr, arith, if◌then◌else◌,
}
use epics_tcl.Ca.{Platform}
use epics_tcl.Tcl.{Tcl, Reply, tcl_ok}
use epics_tcl.Command.{Command, find, word}
use epics_tcl.Command.Set
use epics_tcl.Command.Assignments.{set-refused}
use epics_tcl.World.{World, Run, done, dangling, ◌>>=◌, found, at, calls_ca}
use epics_tcl.Registry.{delete_channel}
use epics_tcl.Links.{is_linked, link, unlink}
use epics_tcl.Dispatch.{Answers, Subcommand, subcommand, run, delete_self, invoke}

-- If the computation ends with a reply other than TCL_OK, the world is `w`.
abbrev KeepsOnError : World → Run (World × Reply) → Type 0
KeepsOnError w m = (w' : World) (r : Reply) → m ≡ done (w', r) → r.status ≢ tcl_ok → w' ≡ w

KeepsOnError-same : (w : World) (r : Reply) → KeepsOnError w (done (w, r))
KeepsOnError-same w r w' r' e h = ground arith

KeepsOnError-ok : (w x : World) (r : Reply) → r.status ≡ tcl_ok → KeepsOnError w (done (x, r))
KeepsOnError-ok w x r ok w' r' e h = absurd (h (ground arith))

KeepsOnError-bind {ℓ} :
    {A : Type ℓ} (w : World) (m : Run A) (f : A → Run (World × Reply))
    → ((a : A) → KeepsOnError w (f a))
    → KeepsOnError w (m >>= f)
KeepsOnError-bind w dangling f k w' r e h = cc
KeepsOnError-bind w (done a) f k w' r e h = k a w' r e h

KeepsOnError-if :
    (w : World) (b : Bool) (m n : Run (World × Reply))
    → KeepsOnError w m
    → KeepsOnError w n
    → KeepsOnError w (if b then m else n)
KeepsOnError-if w true m n k l = k
KeepsOnError-if w false m n k l = l

module _ (p : Platform) (t : Tcl) (a : Answers) (self : ℕ) (c : Command) (objv : List String)
    (w : World) where
  delete_self-KeepsOnError : KeepsOnError w (delete_self c w)
  unfolding delete_self
  delete_self-KeepsOnError =
      KeepsOnError-bind w (delete_channel c.name w) _ (λ w1. KeepsOnError-ok w w1 _ refl)

  link-KeepsOnError : KeepsOnError w (link self c objv w)
  unfolding link
  link-KeepsOnError =
      KeepsOnError-if w (nat_eq (length objv) 3) _ _
        (KeepsOnError-bind w (is_linked self (word objv 2) w) _ (λ taken.
          KeepsOnError-if w taken _ _ (KeepsOnError-same w _) (KeepsOnError-ok w _ _ refl)))
        (KeepsOnError-same w _)

  unlink-KeepsOnError : KeepsOnError w (done (unlink self c objv w))
  unfolding unlink
  unlink-KeepsOnError w' r e h = elim (Bool-cases (nat_eq (length objv) 3)) [
    | inl three ↦ elim (Option-cases (find (word objv 2) c.linked_variables)) [
      | inl missing ↦ ground (arith)
      | inr (i, there) ↦ absurd (h (ground (arith)))
    ]
    | inr short ↦ ground (arith)
  ]

  set-KeepsOnError : KeepsOnError w (run p t a Subcommand.set self c objv w)
  unfolding run
  set-KeepsOnError w' r e h =
      let result = Set.set p t a.element_count a.allocated c objv in
      let same : result.0 ≡ r = ground (arith) in
      let quiet : result.1 ≡ [] =
        (set-refused p t a.element_count a.allocated c objv).0
          (λ ok. h (sym (ap (λ (x : Reply). x.status) same) ∙ ok)) in
      let ended : w' ≡ calls_ca result.1 w = ground (arith) in
      ended
      ∙ (ap (λ calls. calls_ca calls w) quiet
          ∙ ap (λ calls. record w { ca_calls = calls }) (append-nil w.ca_calls))

  run-KeepsOnError : (s : Subcommand) → KeepsOnError w (run p t a s self c objv w)
  unfolding run
  run-KeepsOnError Subcommand.get = KeepsOnError-same w _
  run-KeepsOnError Subcommand.set = set-KeepsOnError
  run-KeepsOnError Subcommand.delete = delete_self-KeepsOnError
  run-KeepsOnError Subcommand.updatetime = KeepsOnError-same w _
  run-KeepsOnError Subcommand.link = link-KeepsOnError
  run-KeepsOnError Subcommand.unlink = unlink-KeepsOnError
  run-KeepsOnError Subcommand.listlinks = KeepsOnError-same w _
  run-KeepsOnError Subcommand.values = KeepsOnError-same w _
  run-KeepsOnError Subcommand.size = KeepsOnError-same w _
  run-KeepsOnError Subcommand.other = KeepsOnError-same w _

-- A command of a channel that ends with another status than TCL_OK leaves everything as it was: the
-- known channels, the commands with their links and channels, the event queue, and the calls made of
-- channel access and of Tcl.
pub invoke-failed :
    (p : Platform) (t : Tcl) (a : Answers) (self : ℕ) (objv : List String) (w w' : World)
    (r : Reply)
    → invoke p t a self objv w ≡ done (w', r)
    → r.status ≢ tcl_ok
    → w' ≡ w
unfolding invoke
invoke-failed p t a self objv w = KeepsOnError-bind w (found (at w self)) _ (λ c.
    KeepsOnError-if w (ltb (length objv) 2) _ _ (KeepsOnError-same w _)
      (run-KeepsOnError p t a self c objv w (subcommand (word objv 1))))
