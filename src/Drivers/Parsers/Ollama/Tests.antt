-- ===== src/Drivers/Parsers/Ollama/Tests.antt =====
-- The theorem about the Ollama parser at a concrete stream.
use cordyceps.Common.{
  if◌then◌else◌, All, String, ◌≡◌, refl, ◌≢◌, Bool, true, false, Option, none, some, List, [], ◌∷◌,
  ◌++◌,
}
use cordyceps.Common.Text.{Text, text, same, trim}
use cordyceps.Common.Json.{Json, null, bool, str, obj, field, end}
use cordyceps.Agents.Types.{AgentState, AssistantMessage, ParseResult, idle}
use cordyceps.Drivers.Parsers.Step.{
  fed, ran, run, message_texts, decoded, found, of_chunk, concat, Timed,
}
use cordyceps.Drivers.Parsers.Ollama.{initial, response, feed}
use cordyceps.Drivers.Parsers.Ollama.Run.{content, step, ollama_run}

abbrev token : String → Bool → Json
token s last = obj (
    field "model" (str (text "m")) (field "response" (str (text s)) (field "done" (bool last) end)))

-- `JSON.parse`, with a letter for each line.
abbrev parse : Text → Option Json
parse t =
    if same t (text "a")
    then some (token "hel" false)
    else if same t (text "b")
    then some (token "lo" false)
    else if same t (text "c")
    then some (token "!" true)
    else none

-- No value but texts is shown here.
abbrev show : Json → Text
show v = text "[object Object]"

abbrev at : String → Timed
at t = record { now = text "2026-01-01T00:00:00.000Z"; chunk = text t }

abbrev stream : List Timed
stream = at "a" ∷ at "b" ∷ []

stream_regular : All (λ d. decoded parse d.chunk ≢ some null) stream
unfolding decoded trim
stream_regular = ((λ e. cc), ((λ e. cc), tt))

decoded-last : decoded parse (text "c") ≡ some (token "!" true)
unfolding decoded trim
decoded-last = refl

ollama_run_example :
    (t : AgentState) × (buf : Text) × (ms : List AssistantMessage) × (r : ParseResult) × (run
        (step show parse)
        stream
        initial
        (text "old ")
      ≡ ran t buf ms)
    × (feed show parse (text "2026-01-01T00:00:00.000Z") (text "c") t buf ≡ fed r [])
    × (concat (message_texts (ms ++ r.messages))
        ≡ (text "old " ++ concat (found (of_chunk (content show) parse) stream))
          ++ response show (token "!" true))
    × (r.state.status ≡ idle)
ollama_run_example =
    ollama_run show parse stream (at "c") (token "!" true) initial (text "old ") stream_regular
      decoded-last refl
