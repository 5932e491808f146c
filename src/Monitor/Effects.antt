-- ===== src/Monitor/Effects.antt =====
-- A member that runs from its first statement to its last with no other thread between does what the
-- model of CChannel has it do in one step.
use mathlib.Core.List.{append-nil, append_assoc}
use epics_tcl.Prelude.{
  length, ltb, nat_eq, ◌||◌, is_some, ℕ, ◌≡◌, refl, sym, ap, ◌∙◌, true, some, [], ◌∷◌, ◌++◌,
  Option-cases, inl, inr, arith, if◌then◌else◌,
}
use epics_tcl.Ca.{
  put_string, put_int, put_double, ConnectionArgs, ConnOp, CaCall, flush_io, Platform, up, down,
  other,
}
use epics_tcl.Converter
use epics_tcl.Channel
use epics_tcl.Channel.{Channel, Slot}
use epics_tcl.Channel.Put.{assign_string, assign_int, assign_double}
use epics_tcl.Monitor.{effect}
use epics_tcl.Monitor.Members.{
  Shared, Member, get_name, is_connected, get_last_update, get_value, get_vector, get_vector_script,
  connect, set_slot, put_text, put_number, put_real, state_handler, update, connect_script,
  set_slot_script, put_script, subscribe_script, state_handler_script, script, apply,
}
use epics_tcl.Monitor.Branches.{effect-if, effect-elim}
use epics_tcl.Monitor.Updating.{effect-update_script}

-- Two calls after the others.
append-two :
    (s : Shared) (a b : CaCall)
    → record s { calls = (s.calls ++ a ∷ []) ++ b ∷ [] }
      ≡ record s { calls = s.calls ++ (a ∷ b ∷ []) }
append-two s a b = ap (λ l. record s { calls = l }) (append_assoc s.calls (a ∷ []) (b ∷ []))

append-none : (s : Shared) → s ≡ record s { calls = s.calls ++ [] }
append-none s = ap (λ l. record s { calls = l }) (sym (append-nil s.calls))

effect-put_script :
    (f : Channel → CaCall) (s : Shared)
    → effect (put_script f) s ≡ record s {
      calls = s.calls ++ (if s.channel.connected then f s.channel ∷ flush_io ∷ [] else []);
    }
unfolding put_script
effect-put_script f s =
    effect-if _ s _ s.channel.connected _
      (λ live. append-two s (f s.channel) flush_io ∙ rw live refl)
      (λ idle. append-none s ∙ rw idle refl)

effect-get_vector_script :
    (p : Platform) (max : ℕ) (s : Shared)
    → effect (get_vector_script max) s ≡ apply p (get_vector max) s
unfolding get_vector_script Channel.get_vector
effect-get_vector_script p max s =
    effect-if _ s _ s.channel.connected _
      (λ live.
        effect-if _ s _ (nat_eq max 0 || ltb (length s.channel.vector_value) max) _
          (λ all. rw (live, all) refl) (λ some_of. rw (live, some_of) refl))
      (λ idle. rw idle refl)

effect-connect_script :
    (p : Platform) (id : ℕ) (s : Shared) → effect (connect_script id) s ≡ apply p (connect id) s
unfolding connect_script Channel.connect
effect-connect_script p id s =
    effect-if _ s _ s.channel.connection_handler_established _
      (λ again.
        append-none
          (record s { channel = record s.channel { connection_handler_established = true } })
        ∙ rw again refl)
      (λ first. rw first refl)

effect-subscribe_script :
    (args : ConnectionArgs) (s : Shared)
    → is_some s.channel.converter ≡ true
    → effect (subscribe_script args) s ≡ (
        let (c, calls) = Channel.subscribe args s.channel in
        record s { channel = c; calls = s.calls ++ calls })
unfolding subscribe_script Channel.subscribe
effect-subscribe_script args s conv =
    effect-if _ s _ s.channel.update_handler_established _ (λ again. append-none s ∙ rw again refl)
      (λ first. elim (Option-cases s.channel.converter) [
        | inl lacking ↦ absurd (ground (arith))
        | inr (k, there) ↦ rw there (rw first refl)
      ])

effect-state_handler_script :
    (p : Platform) (args : ConnectionArgs) (s : Shared) (o : ConnOp)
    → args.op ≡ o
    → effect (state_handler_script args) s ≡ apply p (state_handler args) s
unfolding state_handler_script Channel.state_handler Channel.with_converter
effect-state_handler_script p args s up e =
    let live : Shared = record s { channel = record s.channel { connected = true } } in
    let ready : Shared = record s {
      channel = record s.channel {
        connected = true;
        converter = some (Converter.converter args.field_type);
      };
    } in
    rw e (
      effect-elim _ live _ s.channel.converter _
        (λ lacking.
          effect-subscribe_script args ready refl
          ∙ simp (lacking, Channel.with_converter, Channel.state_handler))
        (λ k there.
          effect-subscribe_script args live (rw there refl)
          ∙ simp (there, Channel.with_converter, Channel.state_handler)))
effect-state_handler_script p args s down e = rw e refl
effect-state_handler_script p args s other e = rw e (append-none s)

pub effect-script : (p : Platform) (a : Member) (s : Shared) → effect (script p a) s ≡ apply p a s
unfolding script Channel.get_name Channel.is_connected Channel.get_last_update Channel.get_value
    set_slot_script Channel.set_slot assign_string assign_int assign_double
effect-script p get_name s = refl
effect-script p is_connected s = refl
effect-script p get_last_update s = refl
effect-script p get_value s = refl
effect-script p (get_vector max) s = effect-get_vector_script p max s
effect-script p (connect id) s = effect-connect_script p id s
effect-script p (set_slot h d) s = refl
effect-script p (put_text t) s = effect-put_script (λ c. put_string c.chid t) s
effect-script p (put_number i) s = effect-put_script (λ c. put_int c.chid i) s
effect-script p (put_real d) s = effect-put_script (λ c. put_double c.chid d) s
effect-script p (state_handler args) s = effect-state_handler_script p args s args.op refl
effect-script p (update now args reads) s = effect-update_script p now args reads s
