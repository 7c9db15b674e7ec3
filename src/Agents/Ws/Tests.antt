-- ===== src/Agents/Ws/Tests.antt =====
-- Websocket agents with a parser that tells nothing.
use cordyceps.Common.{String, ◌≡◌, refl, true, false, none, List, [], ◌∷◌, ◌++◌}
use cordyceps.Agents.Types.{Status}
use cordyceps.Agents.Feed.{State, Parsed}
use cordyceps.Agents.Feed.Mirror.{IsMirrored}
use cordyceps.Agents.Ws.{
  Event, spawned, connects, opened, message, close, killed, kill_elapsed, written, new_ws,
  on_events,
}
use cordyceps.Agents.Ws.Life.{ws-IsMirrored}

abbrev parse : String → State Unit → Parsed Unit
parse chunk s = record { state = s; changed = false; events = []; messages = [] }

abbrev begin : State Unit
begin = record { status = Status.starting; blocking = none; rest = tt }

-- The connection of an agent with a server of its own is lost, then the agent is killed.
abbrev lost : List Event
lost = spawned ∷ connects ∷ opened ∷ message "m" ∷ close 1006 ∷ []

abbrev later : List Event
later = killed ∷ kill_elapsed ∷ []

-- The kill comes to nothing: the server runs on and got no signal.
leaked_server : (on_events parse (lost ++ later) (new_ws begin)).server ≡ true
unfolding on_events
leaked_server = refl

leaked_signals : (on_events parse (lost ++ later) (new_ws begin)).signals ≡ 0
unfolding on_events
leaked_signals = refl

early_frames :
    (on_events parse
      (connects ∷ written "a" ∷ opened ∷ written "b" ∷ killed ∷ written "c" ∷ [])
      (new_ws begin)).sent
    ≡ "b" ∷ []
unfolding on_events
early_frames = refl

ws-IsMirrored_example : IsMirrored (on_events parse (lost ++ later) (new_ws begin)).agent
ws-IsMirrored_example = ws-IsMirrored parse (lost ++ later) begin
