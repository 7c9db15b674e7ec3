-- ===== src/Agents/Pty/Tests.antt =====
-- A terminal agent with a parser that tells every chunk that is not empty as a message.
use cordyceps.Common.{
  if◌then◌else◌, String, ◌≡◌, refl, true, false, none, some, List, [], ◌∷◌, ◌++◌, str_eq,
}
use cordyceps.Common.Text.{text}
use cordyceps.Agents.Types.{Status, idle, AssistantMessage}
use cordyceps.Agents.Feed.{State, Parsed}
use cordyceps.Agents.Feed.Mirror.{IsMirrored}
use cordyceps.Agents.Feed.Waiters.{count_answers}
use cordyceps.Agents.Pty.{
  new_pty, scrollback_max, Event, started, submitted, data_came, exit, timeout, killed, on_event,
  on_events,
}
use cordyceps.Agents.Pty.Life.{pty-IsMirrored, waiter_settled}
use cordyceps.Agents.Pty.Scrollback.{latest, chunks_of, scrollback_latest}

abbrev hello : AssistantMessage
hello = record { text = text "hello"; ts = []; tokens = none }

abbrev parse : String → State Unit → Parsed Unit
parse chunk s =
    if str_eq chunk ""
    then record { state = s; changed = false; events = []; messages = [] }
    else record {
      state = record s { status = idle };
      changed = true;
      events = [];
      messages = hello ∷ [];
    }

abbrev begin : State Unit
begin = record { status = Status.starting; blocking = none; rest = tt }

abbrev run : List Event
run =
    started
    ∷ submitted false true
    ∷ submitted false true
    ∷ data_came "a"
    ∷ submitted false true
    ∷ killed
    ∷ exit 3
    ∷ submitted false true
    ∷ []

run_state :
    (on_events parse run (new_pty begin)).waiters
    ≡ record { pending = 2 ∷ []; next = 3; answers = (0, some hello) ∷ (1, some hello) ∷ [] }
unfolding on_events
run_state = refl

-- Output behind the exit makes an agent that has exited idle.
late_output :
    (on_events parse (run ++ data_came "b" ∷ []) (new_pty begin)).agent.state.status ≡ idle
unfolding on_events
late_output = refl

pty-IsMirrored_example : IsMirrored (on_events parse run (new_pty begin)).agent
pty-IsMirrored_example = pty-IsMirrored parse run begin

scrollback_latest_example :
    (on_events parse run (new_pty begin)).scrollback ≡ latest scrollback_max (chunks_of run)
scrollback_latest_example = scrollback_latest parse run begin

waiter_settled_example :
    count_answers 2
      (on_event parse (timeout 2) (on_events parse run (new_pty begin))).waiters.answers
    ≡ 1
unfolding on_events
waiter_settled_example = waiter_settled parse run begin 2 refl
