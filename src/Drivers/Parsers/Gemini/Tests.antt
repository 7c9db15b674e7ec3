-- ===== src/Drivers/Parsers/Gemini/Tests.antt =====
-- A run of the Gemini parser, and the theorem about it at a concrete stream.
use cordyceps.Common.{
  if◌then◌else◌, String, ◌≡◌, refl, true, Option, none, some, List, [], ◌∷◌, ◌++◌,
}
use cordyceps.Common.Map
use mathlib.Core.Option
use cordyceps.Common.Text.{Text, text, same, trim}
use cordyceps.Common.Json.{Json, bool, num, str, obj, field, end}
use cordyceps.Agents.Types.{AgentState, AssistantMessage, ParseResult}
use cordyceps.Drivers.Parsers.Step.{fed, ran, run, message_texts, decoded, found, concat, Timed}
use cordyceps.Drivers.Parsers.Gemini.{Scratch, fresh, initial, on_event, flush, feed}
use cordyceps.Drivers.Parsers.Gemini.Run.{content_of, IsRegular, step, gemini_run}

running : Unit {0}
unfolding feed flush on_event decoded trim run Map.put
running = tt

abbrev delta : String → Json
delta s = obj (
    field "type" (str (text "message")) (
      field "role" (str (text "assistant"))
        (field "content" (str (text s)) (field "delta" (bool true) end))))

abbrev result : Json
result = obj (
    field "type" (str (text "result")) (field "stats" (obj (field "total_tokens" (num 7) end)) end))

-- `JSON.parse`, with a letter for each line.
abbrev parse : Text → Option Json
parse t =
    if same t (text "a")
    then some (delta "hel")
    else if same t (text "b")
    then some (delta "lo")
    else if same t (text "r")
    then some result
    else none

abbrev at : String → Timed
at t = record { now = text "2026-01-01T00:00:00.000Z"; chunk = text t }

abbrev stream : List Timed
stream = at "a" ∷ at "b" ∷ at "r" ∷ at "a" ∷ []

-- The result flushes one message, and the end of the stream another.
stream_messages :
    Option.map message_texts
      (elim (run (step parse) stream initial fresh) [ ran t sc ms ↦ some ms | _ ↦ none ])
    ≡ some (text "hello" ∷ [])
unfolding running
stream_messages = refl

stream-IsRegular : IsRegular parse stream
unfolding running
stream-IsRegular = ((λ _ e. cc), ((λ _ e. cc), ((λ _ e. cc), ((λ _ e. cc), tt))))

-- Text that another agent of the driver left in the parser.
abbrev used : Scratch
used = record fresh { message_buf = text "old "; pending = true }

gemini_run_example :
    (t : AgentState) × (after : Scratch) × (ms : List AssistantMessage) × (r : ParseResult)
    × (last : Scratch) × (run (step parse) stream initial used ≡ ran t after ms)
    × (feed parse (text "later") [] t after ≡ fed r last)
    × (concat (message_texts (ms ++ r.messages))
        ≡ text "old " ++ concat (found (content_of parse) stream))
    × (last.message_buf ≡ [])
gemini_run_example = gemini_run parse stream (text "later") initial used (λ e. cc) stream-IsRegular
