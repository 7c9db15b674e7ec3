-- ===== src/Drivers/Parsers/Ollama.antt =====
-- src/drivers/ollama/parser.ts: tokens are gathered in a buffer until an event with `done: true`.
pub mod Run
mod Tests
use cordyceps.Common.{
  ltb, leb, ◌==◌, if◌then◌else◌, ltb→lt, lt→ltb, leb→le, ==_iff, Bool-cases, Option-cases,
  String-cases, str_eq_refl, str_eq-false, length, get_elem?, take, drop, keep, any, last?,
  length-append, take-append-drop, length-take, length-drop, All, All-append, All-map,
  drop-append_of_le, take-append_of_le, drop-length-append, take-length, append-ne-nil,
  slice-append_of_le, ℕ, zero, suc, ◌+◌, ◌-◌, ◌*◌, ◌/◌, ◌%◌, ◌≤◌, ◌<◌, min, max, String, ◌≡◌, refl,
  sym, ap, ◌∙◌, ◌≢◌, ◌↔◌, ◌⊎◌, inl, inr, Bool, true, false, not, ◌&&◌, ◌||◌, Option, none, some,
  List, [], ◌∷◌, ◌++◌, map-append, append-nil, append_assoc, arith, str_eq, eq_iff, map,
}
use cordyceps.Common.Text.{Text, is_nil}
use cordyceps.Common.Json.{Json, str, is_null, prop, truthy, text_of, is_bool, count_of, or_else}
use cordyceps.Common.Map.{is_some}
use cordyceps.Agents.Types.{
  AgentState, Status, idle, busy, AssistantMessage, ParserEvent, ParseResult,
}
use cordyceps.Drivers.Parsers.Step.{
  Fed, fed, throws, fed_of, quiet, text_object, event, decoded, initial_state,
}

abbrev pub initial : AgentState
initial = initial_state "server-http"

abbrev is_busy : Status → Bool
is_busy busy = true
is_busy _ = false

-- `show` is JavaScript's conversion to text, which `+=` makes of a value that is no text.
module _ (show : Json → Text) where
  abbrev as_text : Json → Text
  as_text (str t) = t
  as_text v = show v

  abbrev appended : Option Json → Text
  appended none = []
  appended (some v) = as_text v

  -- What `if (ev.response) messageBuf += ev.response` appends.
  abbrev pub response : Json → Text
  response ev = if truthy (prop "response" ev) then appended (prop "response" ev) else []

-- `ev.done === false || (!ev.done && typeof ev.response === "string")`
abbrev pub is_streaming : Json → Bool
is_streaming ev =
    is_bool false (prop "done" ev)
    || (not (truthy (prop "done" ev)) && is_some (text_of (prop "response" ev)))

abbrev new_model : Json → AgentState → Bool
new_model ev s = truthy (prop "model" ev) && not (truthy (some s.model))

abbrev with_model : Json → AgentState → AgentState
with_model ev s =
    if new_model ev s then record s { model = or_else (prop "model" ev) s.model } else s

abbrev count : Json → ℕ
count ev = count_of (prop "prompt_eval_count" ev) + count_of (prop "eval_count" ev)

abbrev done : Json → AgentState → AgentState
done ev s = record (with_model ev s) { status = idle; tokens = count ev }

-- `ev.done === true`, with the gathered text `t`.
pub finish : Text → Json → Text → AgentState → ParseResult × Text
finish now ev t s =
    if is_nil t
    then (record { state = done ev s; changed = true; events = []; messages = [] }, [])
    else (
      record {
        state = record (done ev s) { last_message = some t };
        changed = true;
        events = event "message" (text_object t) ∷ [];
        messages = record { text = t; ts = now; tokens = some (count ev) } ∷ [];
      },
      [],
    )

pub on_event : (Json → Text) → Text → Json → AgentState → Text → ParseResult × Text
on_event show now ev s buf =
    if is_streaming ev
    then (
      record {
        state = record (with_model ev s) { status = busy };
        changed = new_model ev s || not (is_busy s.status);
        events = [];
        messages = [];
      },
      buf ++ response show ev,
    )
    else if is_bool true (prop "done" ev)
    then finish now ev (buf ++ response show ev) s
    else (
      record { state = with_model ev s; changed = new_model ev s; events = []; messages = [] },
      buf,
    )

-- The empty chunk and the blank one are `none` of `decoded` too.
pub feed : (Json → Text) → (Text → Option Json) → Text → Text → AgentState → Text → Fed Text
feed show json_parse now chunk s buf = elim (decoded json_parse chunk) [
  | none ↦ fed (quiet s) buf
  | some ev ↦ if is_null ev then throws else fed_of (on_event show now ev s buf)
]
