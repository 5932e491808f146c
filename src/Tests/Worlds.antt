-- ===== src/Tests/Worlds.antt =====
-- The theorems of the whole at a world with one channel, made by the first step.
use epics_tcl.Prelude.{
  inl, sym, ap, Option, All, is_some, ℕ, ◌<◌, ◌≡◌, ◌≢◌, refl, ◌↔◌, ◌⊎◌, String, none, some, List,
  [], ◌∷◌, arith, ◌+◌, ◌-◌, ◌==◌, if◌then◌else◌, true, is_empty, ◌++◌, false,
}
use epics_tcl.Prelude.Int.{pos}
use epics_tcl.Map.{lookup, insert, address_eq}
use epics_tcl.Tcl.{tcl_ok}
use epics_tcl.Command.{Command, VariableInfo, find}
use epics_tcl.World.{World, ChangeEvent, RefCountedChannel, done, dangling, at, store, calls_ca}
use epics_tcl.Registry.{
  created, have_channel, epicschannel, delete_channel, make_channel, new_command,
}
use epics_tcl.Links.{add_link, link, unlink, linked_world, is_linked, already_linked, silent}
use epics_tcl.Links.Sound.{IsLinked}
use epics_tcl.Change.{update, channel_event, connection_event}
use epics_tcl.Dispatch.{Answers, invoke}
use epics_tcl.System.{IsSound, empty, Reach, start, next, creates, invokes, connects}
use epics_tcl.System.Operations.{epicschannel-new, with_new, answered}
use epics_tcl.System.Steps.{IsServable, Reach-IsSound}
use epics_tcl.System.Progress.{update-dangling_iff}
use epics_tcl.System.RoundTrip.{IsAlike, delete_channel-epicschannel}
use epics_tcl.System.Linking.{link-refused_iff, unlink-link}
use epics_tcl.Tests.{wide, tcl, fresh, fresh_again, going_up, event}
use epics_tcl.Links.RoundTrip.{after_link}
use epics_tcl.Variable
use epics_tcl.Links.Counts
use epics_tcl.Links.Counts.{IsCounted, OneMore, OneLess}
use epics_tcl.System.LinkCounts.{link-unlink-references}
use epics_tcl.Channel.{state_handler}
use epics_tcl.Channel
use epics_tcl.Converter
use epics_tcl.System.Counts.{references, references_lem}
use epics_tcl.System.Errors.{invoke-failed}
use epics_tcl.Channel.Lifecycle
use epics_tcl.Channel.Lifecycle.{makes, clears, total, IsDeterminate}
use epics_tcl.Channel.Lifecycle.Continues.{releases}
use epics_tcl.Map.Sums.{sum}
use epics_tcl.System.Ledger.{OrderlyReach, begin, then_step, is_up, each}
use epics_tcl.System.Ledger.Steps.{OrderlyReach-balanced}
use epics_tcl.Change.Teardown.{Arrival, delete_channel_with}
use epics_tcl.System.Teardown.{delete_channel-late_updates}
use epics_tcl.System.Drain.{drain, queue_calls, sets}
use epics_tcl.System.Delivery.{changed_world, channel_event-shown}

abbrev words : List String
words = "epicschannel" ∷ "ch" ∷ []

abbrev one : World
one = with_new fresh "ch" empty

reached : Reach wide tcl one
unfolding have_channel lookup
reached = next start (
    creates fresh "epicschannel" words (record { status = tcl_ok; result = none }) refl
      (epicschannel-new fresh "epicschannel" words empty refl refl))

Reach-IsSound_example : IsSound one
Reach-IsSound_example = Reach-IsSound reached

sound : IsSound one
sound = Reach-IsSound reached

abbrev stale : ChangeEvent
stale = record { changed_channel = 9; channel_name = "ch" }

update-dangling_iff_example :
    (update stale one ≡ dangling) ↔ ((have_channel "ch" one ≢ none) × (at one 9 ≡ none))
update-dangling_iff_example = update-dangling_iff stale one

abbrev entry : RefCountedChannel
entry = record { refcount = pos 1; command = 1 }

known : have_channel "ch" one ≡ some entry
unfolding have_channel make_channel new_command lookup insert
known = refl

free : at one 2 ≡ none
unfolding make_channel new_command lookup insert
free = refl

delete_channel-epicschannel_example :
    (w' : World) × (w'' : World) × (epicschannel fresh_again "epicschannel" words one
      ≡ done (answered w'))
    × (delete_channel "ch" w' ≡ done w'')
    × IsAlike one w''
delete_channel-epicschannel_example =
    delete_channel-epicschannel fresh_again "epicschannel" words one refl free sound

abbrev link_words : List String
link_words = "ch" ∷ "link" ∷ "v" ∷ []

abbrev ch : Command
ch = created fresh "ch"

link-refused_iff_example :
    ((link 1 ch link_words one ≡ done (one, already_linked "v"))
      ↔ ((b : ℕ) × (d : Command) × (b ≢ 1) × (at one b ≡ some d) × IsLinked "v" d))
    × ((link 1 ch link_words one ≢ done (one, already_linked "v"))
        → link 1 ch link_words one ≡ done (linked_world 1 "v" ch one, silent))
link-refused_iff_example = link-refused_iff 1 ch link_words one refl sound

live : at one 1 ≡ some ch
unfolding make_channel new_command lookup insert
live = refl

none_yet :
    (i : VariableInfo) → find "v" ch.linked_variables ≡ some i → 0 < i.linked_var.reference_count
unfolding find
none_yet i e = absurd (cc)

now_linked : link 1 ch link_words one ≡ done (linked_world 1 "v" ch one, silent)
unfolding link is_linked make_channel new_command lookup insert find
now_linked = refl

unlink-link_example :
    (c' : Command) × (at (linked_world 1 "v" ch one) 1 ≡ some c')
    × (at (unlink 1 c' link_words (linked_world 1 "v" ch one)).0 1 ≡ some ch)
    × ((unlink 1 c' link_words (linked_world 1 "v" ch one)).1 ≡ silent)
unlink-link_example =
    unlink-link 1 ch link_words one (linked_world 1 "v" ch one) refl live sound none_yet now_linked

-- The same world, with the variable linked and the channel up.
abbrev two : World
two = linked_world 1 "v" ch one

abbrev linked_ch : Command
linked_ch = after_link 1 "v" ch

abbrev up_ch : Command
up_ch = record linked_ch { channel = (state_handler going_up linked_ch.channel).0 }

abbrev three : World
three = calls_ca (state_handler going_up linked_ch.channel).1 (store 1 up_ch two)

now_up : connection_event 1 going_up two ≡ done three
unfolding connection_event linked_world make_channel new_command lookup insert
now_up = refl

invoked :
    invoke wide tcl (record { element_count = 1; allocated = true }) 1 link_words one
    ≡ done (two, silent)
unfolding invoke make_channel new_command lookup insert
invoked = now_linked

IsSound-three : IsSound three
IsSound-three = Reach-IsSound (
    next
      (next reached
        (invokes (record { element_count = 1; allocated = true }) 1 link_words silent invoked))
      (connects 1 going_up now_up))

there : at three 1 ≡ some up_ch
unfolding lookup insert
there = refl

has_link : is_empty up_ch.linked_variables ≡ false
unfolding add_link find
has_link = refl

converts : up_ch.channel.converter ≡ some Converter.integer
unfolding state_handler Channel.connect Channel.new Channel.set_slot Converter.converter
converts = refl

-- An event of a channel that is no longer known is ahead in the queue.
abbrev busy_world : World
busy_world = record three { queue = record { changed_channel = 9; channel_name = "gone" } ∷ [] }

IsSound-busy : IsSound busy_world
IsSound-busy = record { registered = IsSound-three.registered; linked = IsSound-three.linked }

servable : All (IsServable busy_world) busy_world.queue
unfolding have_channel linked_world make_channel new_command lookup insert
servable = (inl refl, tt)

abbrev other_thread : ℕ
other_thread = 7

channel_event-shown_example :
    let calls = sets 1 (Converter.call wide Converter.integer event).1 up_ch.linked_variables in
    (other_thread ≡ up_ch.interpreter_thread
      → (w' : World) × (channel_event wide other_thread 5 1 event busy_world ≡ done w')
        × (w'.tcl_calls ≡ busy_world.tcl_calls ++ calls))
    × (other_thread ≢ up_ch.interpreter_thread
        → (w' : World) × (w'' : World) × (channel_event wide other_thread 5 1 event busy_world
            ≡ done w')
          × (w'.tcl_calls ≡ busy_world.tcl_calls)
          × (drain w'.queue w' ≡ done w'')
          × (w''.tcl_calls
              ≡ busy_world.tcl_calls
                ++ (queue_calls busy_world.known_channels
                      (changed_world wide other_thread 5 1 event up_ch Converter.integer
                        busy_world).commands
                      busy_world.queue
                    ++ calls))
          × (w''.queue ≡ []))
channel_event-shown_example =
    channel_event-shown wide other_thread 5 1 event up_ch Converter.integer busy_world IsSound-busy
      there has_link converts refl servable

references_lem_example :
    ((w' : World) × (epicschannel fresh_again "epicschannel" words one ≡ done (answered w'))
      × ((n : String)
          → references w' n ≡ (if "ch" == n then references one n + 1 else references one n)))
    × ((w' : World) × (delete_channel "ch" one ≡ done w')
        × ((n : String)
            → references w' n ≡ (if "ch" == n then references one n - 1 else references one n)))
references_lem_example = references_lem fresh_again "epicschannel" words one refl free sound

abbrev unlink_words : List String
unlink_words = "ch" ∷ "unlink" ∷ "v" ∷ []

abbrev answers : Answers
answers = record { element_count = 1; allocated = true }

not_linked :
    invoke wide tcl answers 1 unlink_words one ≡ done (one, (unlink 1 ch unlink_words one).1)
unfolding invoke unlink find make_channel new_command lookup insert
not_linked = refl

refused : (unlink 1 ch unlink_words one).1.status ≢ tcl_ok
unfolding unlink find
refused e = cc

invoke-failed_example : one ≡ one
invoke-failed_example =
    invoke-failed wide tcl answers 1 unlink_words one one (unlink 1 ch unlink_words one).1
      not_linked refused

counted_once : IsCounted "v" up_ch.linked_variables
unfolding add_link find Variable.new
counted_once i e = ground (arith, e)

link-unlink-references_example :
    ((link 1 up_ch link_words three ≡ done (three, already_linked "v"))
      ⊎ ((w' : World) × (c' : Command) × ((link 1 up_ch link_words three ≡ done (w', silent))
            × (at w' 1 ≡ some c')
            × OneMore "v" up_ch.linked_variables c'.linked_variables)))
    × ((c' : Command) × ((at (unlink 1 up_ch link_words three).0 1 ≡ some c')
          × OneLess "v" up_ch.linked_variables c'.linked_variables))
    × (IsLinked "v" up_ch ↔ (Counts.references up_ch.linked_variables "v" ≢ 0))
link-unlink-references_example =
    link-unlink-references 1 up_ch link_words three refl there IsSound-three counted_once

still_down : (c : Command) → at two 1 ≡ some c → c.channel.connected ≡ false
unfolding linked_world make_channel new_command lookup insert Channel.connect Channel.new
    Channel.set_slot
still_down c e =
    ap (λ (o : Option Command). elim o [ none ↦ false | some d ↦ d.channel.connected ]) (sym e)

orderly : OrderlyReach wide tcl three
unfolding lookup have_channel
orderly =
    then_step
      (then_step
        (then_step begin
          (creates fresh "epicschannel" words (record { status = tcl_ok; result = none }) refl
            (epicschannel-new fresh "epicschannel" words empty refl refl))
          tt)
        (invokes answers 1 link_words silent invoked) tt)
      (connects 1 going_up now_up) still_down

OrderlyReach-balanced_example :
    (total makes three.ca_calls ≡ total clears three.ca_calls + sum is_up three.commands)
    × (total Lifecycle.creates three.ca_calls
        ≡ total releases three.ca_calls + sum each three.commands)
    × All IsDeterminate three.ca_calls
    × ((self : ℕ) (c : Command)
        → at three self ≡ some c
        → (c.channel.connection_handler_established ≡ true)
          × (is_some c.channel.converter ≡ c.channel.connected)
          × (c.channel.update_handler_established ≡ c.channel.connected))
OrderlyReach-balanced_example = OrderlyReach-balanced orderly

-- An update on another thread, while the channel is destroyed.
abbrev late_update : Arrival
late_update = record { thread = other_thread; now = 6; args = event }

delete_channel-late_updates_example :
    (w1 : World) × (w2 : World) × (delete_channel "ch" three ≡ done w1)
    × (delete_channel_with wide (late_update ∷ []) "ch" three ≡ done w2)
    × (drain w2.queue w2 ≡ drain w1.queue w1)
delete_channel-late_updates_example =
    delete_channel-late_updates wide (late_update ∷ []) "ch" three IsSound-three
