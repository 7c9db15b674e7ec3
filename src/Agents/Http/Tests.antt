-- ===== src/Agents/Http/Tests.antt =====
-- HTTP agents whose control writes the prompt as the body.
use cordyceps.Common.{String, ◌≡◌, refl, true, false, Option, none, some, List, [], ◌∷◌}
use cordyceps.Agents.Types.{Status, busy}
use cordyceps.Agents.Feed.{State, Parsed}
use cordyceps.Agents.Feed.Mirror.{IsMirrored}
use cordyceps.Agents.Http.{
  Event, submitted, interrupt_done, control_done, failed, killed, new_http, on_event, on_events,
}
use cordyceps.Agents.Http.Life.{http-IsMirrored}
use cordyceps.Agents.Http.Body.{own_body}

abbrev parse : String → State Unit → Parsed Unit
parse c s = record { state = s; changed = false; events = []; messages = [] }

abbrev body_of : String → Option String
body_of p = some p

abbrev default_body : String → String
default_body p = "default"

abbrev begin : State Unit
begin = record { status = Status.starting; blocking = none; rest = tt }

-- Two submits before the control of the first has returned: the first sends the body of the second,
-- and the second a body that no control wrote.
crossed_bodies :
    (on_events parse body_of default_body
      (submitted false "a" ∷ submitted false "b" ∷ control_done 0 ∷ control_done 1 ∷ [])
      (new_http begin)).sent
    ≡ "b" ∷ "default" ∷ []
unfolding on_events
crossed_bodies = refl

-- An agent that was killed sends a request, and is busy.
killed_then_sent :
    (on_events parse body_of default_body
      (submitted false "a" ∷ killed ∷ control_done 0 ∷ [])
      (new_http begin)).sent
    ≡ "a" ∷ []
unfolding on_events
killed_then_sent = refl

killed_then_busy :
    (on_events parse body_of default_body
      (submitted false "a" ∷ killed ∷ control_done 0 ∷ [])
      (new_http begin)).agent.state.status
    ≡ busy
unfolding on_events
killed_then_busy = refl

abbrev barged : List Event
barged =
    submitted false "a"
    ∷ control_done 0
    ∷ submitted true "b"
    ∷ interrupt_done 1
    ∷ control_done 1
    ∷ failed 0
    ∷ []

-- The end of the aborted request clears the entry of the request behind it.
barged_active : (on_events parse body_of default_body barged (new_http begin)).active ≡ none
unfolding on_events
barged_active = refl

http-IsMirrored_example :
    IsMirrored (on_events parse body_of default_body barged (new_http begin)).agent
http-IsMirrored_example = http-IsMirrored parse body_of default_body barged begin

own_body_example :
    (on_event parse body_of default_body (control_done 0) (
      on_events parse body_of default_body
        (killed ∷ [])
        (on_event parse body_of default_body (submitted false "a") (new_http begin)))).sent
    ≡ "a" ∷ []
own_body_example =
    own_body parse body_of default_body false "a" (killed ∷ []) (new_http begin) refl refl refl refl
