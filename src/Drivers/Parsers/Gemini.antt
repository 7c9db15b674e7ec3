-- ===== src/Drivers/Parsers/Gemini.antt =====
-- src/drivers/gemini/parser.ts: the text of a turn is gathered in a buffer, and becomes a message at
-- the `result` event or at the empty chunk that ends the stream.
pub mod Run
mod Tests
use cordyceps.Common.{
  ltb, leb, ◌==◌, if◌then◌else◌, ltb→lt, lt→ltb, leb→le, ==_iff, Bool-cases, Option-cases,
  String-cases, str_eq_refl, str_eq-false, length, get_elem?, take, drop, keep, any, last?,
  length-append, take-append-drop, length-take, length-drop, All, All-append, All-map,
  drop-append_of_le, take-append_of_le, drop-length-append, take-length, append-ne-nil,
  slice-append_of_le, ℕ, zero, suc, ◌+◌, ◌-◌, ◌*◌, ◌/◌, ◌%◌, ◌≤◌, ◌<◌, min, max, String, ◌≡◌, refl,
  sym, ap, ◌∙◌, ◌≢◌, ◌↔◌, ◌⊎◌, inl, inr, Bool, true, false, not, ◌&&◌, ◌||◌, Option, none, some,
  List, [], ◌∷◌, ◌++◌, map-append, append-nil, append_assoc, arith, str_eq, eq_iff, map,
}
use cordyceps.Common.Map
use cordyceps.Common.Map.{Map}
use cordyceps.Common.Text.{Text, is_nil}
use cordyceps.Common.Json.{
  Json, end, obj, num, is_null, prop, prop?, truthy, is_text, text_of, count_of, or_else,
}
use cordyceps.Agents.Types.{AgentState, idle, busy, AssistantMessage, ParserEvent, ParseResult}
use cordyceps.Drivers.Parsers.Step.{
  fed_of, Fed, fed, throws, quiet, text_object, event, decoded, initial_state,
}

pub record Scratch : Type 0 where
  pub message_buf : Text
  pub pending : Bool

abbrev pub fresh : Scratch
fresh = record { message_buf = []; pending = false }

abbrev pub initial : AgentState
initial = initial_state "exec"

-- `hasPendingMessage && messageBuf`
abbrev pub has_message : Scratch → Bool
has_message sc = sc.pending && not (is_nil sc.message_buf)

abbrev put_if : Option Json → String → Map Json → Map Json
put_if v k m = if truthy v then Map.put k (or_else v (obj end)) m else m

abbrev on_init : Json → AgentState → ParseResult
on_init ev s = record {
  state = record s {
    model = if truthy (prop "model" ev) then or_else (prop "model" ev) s.model else s.model;
    extra = put_if (prop "session_id" ev) "sessionId" s.extra;
    status = busy;
  };
  changed = true;
  events = [];
  messages = [];
}

-- The text that an event adds to the buffer. Both branches of the test on `delta` do the same.
abbrev pub assistant_text : Json → Option Text
assistant_text ev =
    if is_text "assistant" (prop "role" ev) then text_of (prop "content" ev) else none

abbrev on_message : Option Text → Scratch → Scratch
on_message none sc = sc
on_message (some t) sc = record { message_buf = sc.message_buf ++ t; pending = true }

abbrev number_of : Option Json → Option ℕ
number_of (some (num n)) = some n
number_of _ = none

-- `if (ev.stats) next.tokens = …`
abbrev total : Option Json → ℕ → ℕ
total stats old = if truthy stats then count_of (prop? "total_tokens" stats) else old

abbrev done : Json → AgentState → AgentState
done ev s = record s { tokens = total (prop "stats" ev) s.tokens; status = idle }

abbrev on_result : Text → Json → AgentState → Scratch → ParseResult
on_result now ev s sc =
    let completed = event "turn.completed" (or_else (prop "stats" ev) (obj end)) in
    if has_message sc
    then record {
      state = record (done ev s) { last_message = some sc.message_buf };
      changed = true;
      events = event "message" (text_object sc.message_buf) ∷ completed ∷ [];
      messages =
          record {
            text = sc.message_buf;
            ts = now;
            tokens = number_of (prop? "total_tokens" (prop "stats" ev));
          }
          ∷ [];
    }
    else record { state = done ev s; changed = true; events = completed ∷ []; messages = [] }

abbrev after_flush : Scratch → Scratch
after_flush sc = if has_message sc then fresh else sc

-- The `switch` on `ev.type`.
pub on_event : Text → Json → AgentState → Scratch → ParseResult × Scratch
on_event now ev s sc =
    let kind = prop "type" ev in
    if is_text "init" kind
    then (on_init ev s, sc)
    else if is_text "message" kind
    then (quiet s, on_message (assistant_text ev) sc)
    else if is_text "result" kind
    then (on_result now ev s sc, after_flush sc)
    else (quiet s, sc)

-- The empty chunk at the end of the stream.
pub flush : Text → AgentState → Scratch → ParseResult × Scratch
flush now s sc =
    if has_message sc
    then (
      record {
        state = record s { status = idle; last_message = some sc.message_buf };
        changed = true;
        events = event "message" (text_object sc.message_buf) ∷ [];
        messages = record { text = sc.message_buf; ts = now; tokens = none } ∷ [];
      },
      fresh,
    )
    else (quiet s, sc)

pub feed : (Text → Option Json) → Text → Text → AgentState → Scratch → Fed Scratch
feed json_parse now chunk s sc =
    if is_nil chunk then fed_of (flush now s sc) else elim (decoded json_parse chunk) [
      | none ↦ fed (quiet s) sc
      | some ev ↦ if is_null ev then throws else fed_of (on_event now ev s sc)
    ]
