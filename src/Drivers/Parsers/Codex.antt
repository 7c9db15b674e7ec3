-- ===== src/Drivers/Parsers/Codex.antt =====
-- src/drivers/codex/parser.ts
pub mod Run
mod Tests
use cordyceps.Common.{
  ltb, leb, ◌==◌, if◌then◌else◌, ltb→lt, lt→ltb, leb→le, ==_iff, Bool-cases, Option-cases,
  String-cases, str_eq_refl, str_eq-false, length, get_elem?, take, drop, keep, any, last?,
  length-append, take-append-drop, length-take, length-drop, All, All-append, All-map,
  drop-append_of_le, take-append_of_le, drop-length-append, take-length, append-ne-nil,
  slice-append_of_le, ℕ, zero, suc, ◌+◌, ◌-◌, ◌*◌, ◌/◌, ◌%◌, ◌≤◌, ◌<◌, min, max, String, ◌≡◌, refl,
  sym, ap, ◌∙◌, ◌≢◌, ◌↔◌, ◌⊎◌, inl, inr, Bool, true, false, not, ◌&&◌, ◌||◌, Option, none, some,
  List, [], ◌∷◌, ◌++◌, map-append, append-nil, append_assoc, arith, str_eq, eq_iff, map,
}
use cordyceps.Common.Map
use cordyceps.Common.Text.{Text, text, is_nil, trim}
use cordyceps.Common.Json.{
  Json, obj, end, is_null, prop, prop?, truthy, is_text, text_of, count_of, or_else,
}
use cordyceps.Agents.Types.{
  AgentState, Status, idle, busy, AssistantMessage, ParserEvent, ParseResult,
}
use cordyceps.Drivers.Parsers.Step.{
  decoded, Fed, fed, throws, quiet, text_object, event, initial_state,
}

abbrev pub initial : AgentState
initial = initial_state "exec"

-- The text of a completed agent message.
abbrev pub agent_text : Json → Option Text
agent_text ev =
    if is_text "agent_message" (prop? "type" (prop "item" ev))
    then text_of (prop? "text" (prop "item" ev))
    else none

abbrev thread_started : Json → AgentState → ParseResult
thread_started ev s =
    if truthy (prop "thread_id" ev)
    then record {
      state = record s {
        extra = Map.put "threadId" (or_else (prop "thread_id" ev) (obj end)) s.extra;
      };
      changed = true;
      events = [];
      messages = [];
    }
    else quiet s

abbrev turn_started : AgentState → ParseResult
turn_started s = record {
  state = record s { status = busy };
  changed = true;
  events = event "turn.started" (obj end) ∷ [];
  messages = [];
}

abbrev message_of : Text → AgentState → Option Text → ParseResult
message_of now s none = quiet s
message_of now s (some t) = record {
  state = record s { last_message = some t };
  changed = true;
  events = event "message" (text_object t) ∷ [];
  messages = record { text = t; ts = now; tokens = none } ∷ [];
}

-- `if (ev.usage) next.tokens = …`
abbrev used : Option Json → ℕ → ℕ
used usage old =
    if truthy usage
    then count_of (prop? "input_tokens" usage) + count_of (prop? "output_tokens" usage)
    else old

abbrev turn_completed : Json → AgentState → ParseResult
turn_completed ev s = record {
  state = record s { status = idle; tokens = used (prop "usage" ev) s.tokens };
  changed = true;
  events = event "turn.completed" (or_else (prop "usage" ev) (obj end)) ∷ [];
  messages = [];
}

-- The `switch` on `ev.type`.
pub on_event : Text → Json → AgentState → ParseResult
on_event now ev s =
    let kind = prop "type" ev in
    if is_text "thread.started" kind
    then thread_started ev s
    else if is_text "turn.started" kind
    then turn_started s
    else if is_text "item.completed" kind
    then message_of now s (agent_text ev)
    else if is_text "turn.completed" kind
    then turn_completed ev s
    else quiet s

-- `now` is the clock's time, as an ISO text. Both early returns of the source are the case `none`.
pub feed : (Text → Option Json) → Text → Text → AgentState → Fed (Unit {0})
feed json_parse now chunk s = elim (decoded json_parse chunk) [
  | none ↦ fed (quiet s) tt
  | some ev ↦ if is_null ev then throws else fed (on_event now ev s) tt
]
