-- ===== src/Drivers/Parsers/Codex/Run.antt =====
-- What the Codex parser makes of a stream of lines.
use mathlib.Core.Path.{ap₂}
use cordyceps.Common.{
  if◌then◌else◌, Bool-cases, Option-cases, All, String, ◌≡◌, refl, sym, ap, ◌∙◌, ◌≢◌, inl, inr,
  true, false, Option, none, some, List, [], ◌∷◌, ◌++◌, map-append, arith, map,
}
use cordyceps.Common.Text.{Text, text}
use cordyceps.Common.Json.{Json, null, prop, is_text}
use cordyceps.Agents.Types.{AgentState, Status, idle, busy, AssistantMessage, ParseResult}
use cordyceps.Drivers.Parsers.Step.{
  run-cons, is_null-of_ne, fed, ran, run, message_texts, decoded, found, last_or, to_list, of_chunk,
  found-cons, last_or-append, Timed, is_text_other, quiet,
}
use cordyceps.Drivers.Parsers.Codex.{agent_text, on_event, feed}

-- The message of a line: that of an `item.completed` event.
abbrev pub said : Json → Option Text
said ev = if is_text "item.completed" (prop "type" ev) then agent_text ev else none

-- The status that a line calls for.
abbrev pub turn : Json → Option Status
turn ev =
    if is_text "turn.started" (prop "type" ev)
    then some busy
    else if is_text "turn.completed" (prop "type" ev)
    then some idle
    else none

record Effect (ev : Json) (s : AgentState) (r : ParseResult) : Type 0 where
  messages : message_texts r.messages ≡ to_list (said ev)
  last : r.state.last_message ≡ last_or s.last_message (map some (to_list (said ev)))
  status : r.state.status ≡ last_or s.status (to_list (turn ev))

-- Each pair of the four kinds excludes one another.
module _ (v : Option Json) where
  other : (a b : String) → is_text a v ≡ true → text a ≢ text b → is_text b v ≡ false
  other a b h ne = is_text_other a b v h ne

  at_thread :
      is_text "thread.started" v ≡ true
      → (is_text "turn.started" v ≡ false)
        × (is_text "item.completed" v ≡ false)
        × (is_text "turn.completed" v ≡ false)
  at_thread h = (
    other "thread.started" "turn.started" h (λ e. ground arith),
    other "thread.started" "item.completed" h (λ e. ground arith),
    other "thread.started" "turn.completed" h (λ e. ground arith),
  )

  at_turn :
      is_text "turn.started" v ≡ true
      → (is_text "item.completed" v ≡ false) × (is_text "turn.completed" v ≡ false)
  at_turn h = (
    other "turn.started" "item.completed" h (λ e. ground arith),
    other "turn.started" "turn.completed" h (λ e. ground arith),
  )

  at_item : is_text "item.completed" v ≡ true → is_text "turn.completed" v ≡ false
  at_item h = other "item.completed" "turn.completed" h (λ e. ground arith)

on_event-Effect : (now : Text) (ev : Json) (s : AgentState) → Effect ev s (on_event now ev s)
unfolding on_event
on_event-Effect now ev s =
    let k = prop "type" ev in
    elim (Bool-cases (is_text "thread.started" k)) [
      | inl e ↦ ground (arith, e, at_thread k e)
      | inr e ↦ elim (Bool-cases (is_text "turn.started" k)) [
        | inl f ↦ ground (arith, e, f, at_turn k f)
        | inr f ↦ elim (Bool-cases (is_text "item.completed" k)) [
          | inl g ↦ ground (arith, e, f, g, at_item k g)
          | inr g ↦ ground (arith, e, f, g)
        ]
      ]
    ]

-- What one chunk does.
feed-Effect :
    (json_parse : Text → Option Json) (c : Timed) (s : AgentState)
    → decoded json_parse c.chunk ≢ some null
    → (r : ParseResult) × (feed json_parse c.now c.chunk s ≡ fed r tt)
      × (message_texts r.messages ≡ to_list (of_chunk said json_parse c))
      × (r.state.last_message
          ≡ last_or s.last_message (map some (to_list (of_chunk said json_parse c))))
      × (r.state.status ≡ last_or s.status (to_list (of_chunk turn json_parse c)))
unfolding feed
feed-Effect json_parse c s ne = elim (Option-cases (decoded json_parse c.chunk)) [
  | inl e ↦ (quiet s, ground (arith, e), ground (arith, e), ground (arith, e), ground (arith, e))
  | inr (ev, e) ↦
      let fits = on_event-Effect c.now ev s in
      (
        on_event c.now ev s,
        ground (arith, e, is_null-of_ne ev (λ p. ne (e ∙ p))),
        rw (e, to_list) fits.messages,
        ground (arith, e, fits.last),
        ground (arith, e, fits.status),
      )
]

-- A stream in which no chunk decodes to `null` runs through: its messages are the texts of the
-- completed agent messages, in order; the last message is the last of them; and the status is the
-- one that the last start or end of a turn called for.
pub codex_run :
    (json_parse : Text → Option Json) (cs : List Timed) (s : AgentState)
    → All (λ c. decoded json_parse c.chunk ≢ some null) cs
    → (t : AgentState) × (ms : List AssistantMessage) × (run
          (λ c u _. feed json_parse c.now c.chunk u)
          cs
          s
          tt
        ≡ ran t tt ms)
      × (message_texts ms ≡ found (of_chunk said json_parse) cs)
      × (t.last_message ≡ last_or s.last_message (map some (found (of_chunk said json_parse) cs)))
      × (t.status ≡ last_or s.status (found (of_chunk turn json_parse) cs))
unfolding run
codex_run json_parse [] s h = (s, [], refl, refl, refl, refl)
codex_run json_parse (c ∷ cs) s h =
    let (r, e, ms, last, status) = feed-Effect json_parse c s h.0 in
    let (t, ns, f, ms', last', status') = codex_run json_parse cs r.state h.1 in
    let said_cons = found-cons (of_chunk said json_parse) c cs in
    let turn_cons = found-cons (of_chunk turn json_parse) c cs in
    (
      t,
      r.messages ++ ns,
      run-cons (λ c u _. feed json_parse c.now c.chunk u) c cs s t tt tt tt r ns e f,
      map-append (λ (m : AssistantMessage). m.text) r.messages ns
          ∙ ap₂ (λ (a b : List Text). a ++ b) ms ms'
          ∙ sym said_cons,
      rw said_cons (
          rw map-append (
            rw last_or-append
              (last' ∙ ap (λ a. last_or a (map some (found (of_chunk said json_parse) cs))) last))),
      rw turn_cons (
          rw last_or-append
            (status' ∙ ap (λ a. last_or a (found (of_chunk turn json_parse) cs)) status)),
    )
