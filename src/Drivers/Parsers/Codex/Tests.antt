-- ===== src/Drivers/Parsers/Codex/Tests.antt =====
-- Runs of the Codex parser, and the theorem about it at a concrete stream.
use cordyceps.Common.{if◌then◌else◌, All, ◌≡◌, refl, ◌≢◌, Option, none, some, List, [], ◌∷◌, map}
use cordyceps.Common.Map
use cordyceps.Common.Text.{Text, text, same, trim}
use cordyceps.Common.Json.{Json, null, str, obj, field, end}
use cordyceps.Agents.Types.{AgentState, AssistantMessage}
use cordyceps.Drivers.Parsers.Step.{
  throws, ran, run, message_texts, decoded, found, last_or, of_chunk, Timed,
}
use cordyceps.Drivers.Parsers.Codex.{initial, on_event, feed}
use cordyceps.Drivers.Parsers.Codex.Run.{said, turn, codex_run}

running : Unit {0}
unfolding feed on_event decoded trim run Map.put
running = tt

abbrev started : Text
started = text "{\"type\":\"turn.started\"}"

abbrev answered : Text
answered =
    text "{\"type\":\"item.completed\",\"item\":{\"type\":\"agent_message\",\"text\":\"ok\"}}"

abbrev item : Json
item = obj (field "type" (str (text "agent_message")) (field "text" (str (text "ok")) end))

-- `JSON.parse` on the lines of this file.
abbrev parse : Text → Option Json
parse t =
    if same t started
    then some (obj (field "type" (str (text "turn.started")) end))
    else if same t answered
    then some (obj (field "type" (str (text "item.completed")) (field "item" item end)))
    else if same t (text "null")
    then some null
    else none

abbrev at : Text → Timed
at t = record { now = text "2026-01-01T00:00:00.000Z"; chunk = t }

abbrev stream : List Timed
stream = at started ∷ at (text "warning: cold start") ∷ at answered ∷ []

stream-regular : All (λ c. decoded parse c.chunk ≢ some null) stream
unfolding running
stream-regular = ((λ e. cc), ((λ e. cc), ((λ e. cc), tt)))

-- A line that holds only `null` is JSON, and the parser reads a field of it.
feed_null : feed parse (text "") (text "null\n") initial ≡ throws
unfolding running
feed_null = refl

codex_run_example :
    (t : AgentState) × (ms : List AssistantMessage) × (run
        (λ c u _. feed parse c.now c.chunk u)
        stream
        initial
        (tt {0})
      ≡ ran t tt ms)
    × (message_texts ms ≡ found (of_chunk said parse) stream)
    × (t.last_message ≡ last_or none (map some (found (of_chunk said parse) stream)))
    × (t.status ≡ last_or initial.status (found (of_chunk turn parse) stream))
codex_run_example = codex_run parse stream initial stream-regular
