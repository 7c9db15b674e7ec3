-- ===== src/Drivers/Parsers/Gemini/Run.antt =====
-- What the Gemini parser makes of a stream: no text is lost, repeated or moved.
use cordyceps.Common.{
  if◌then◌else◌, Bool-cases, Option-cases, All, ◌≡◌, refl, sym, ap, ◌∙◌, ◌≢◌, inl, inr, true, false,
  Option, none, some, List, [], ◌∷◌, ◌++◌, map-append, append-nil, arith,
}
use cordyceps.Common.Text.{Text, is_nil}
use cordyceps.Common.Json.{Json, null, prop, is_text}
use cordyceps.Agents.Types.{AgentState, AssistantMessage, ParseResult}
use cordyceps.Drivers.Parsers.Step.{
  accounts_trans, of_chunk-none, of_chunk-some, fed_of, Fed, fed, ran, run, run-cons, message_texts,
  decoded, found, found-cons, to_list, of_chunk, Timed, is_text_other, is_null-of_ne, quiet, concat,
}
use cordyceps.Drivers.Parsers.Gemini.{
  on_message, has_message, Scratch, has_message, assistant_text, on_event, flush, feed,
}

-- The assistant's text in a chunk.
abbrev pub content : Json → Option Text
content ev = if is_text "message" (prop "type" ev) then assistant_text ev else none

abbrev pub content_of : (Text → Option Json) → Timed → Option Text
content_of json_parse c = if is_nil c.chunk then none else of_chunk content json_parse c

-- Without a pending message the buffer is empty.
abbrev pub IsSettled : Scratch → Type 0
IsSettled sc = sc.pending ≡ false → sc.message_buf ≡ []

-- A step that emits `ms` and takes in `got` accounts for all text.
record Keeps (before after : Scratch) (ms got : List Text) : Type 0 where
  text : concat ms ++ after.message_buf ≡ before.message_buf ++ concat got
  settled : IsSettled after

at_init : (v : Option Json) → is_text "init" v ≡ true → is_text "message" v ≡ false
at_init v h = is_text_other "init" "message" v h (λ e. ground arith)

nil-append-eq : (t : Text) → is_nil t ≡ true → t ≡ []
nil-append-eq [] h = refl
nil-append-eq (c ∷ t) h = cc

snoc : (t u : Text) → t ++ u ≡ t ++ (u ++ [])
snoc t u = ap (λ x. t ++ x) (sym (append-nil u))

flush-Keeps :
    (now : Text) (s : AgentState) (sc : Scratch)
    → IsSettled sc
    → Keeps sc (flush now s sc).1 (message_texts (flush now s sc).0.messages) []
      × ((flush now s sc).1.message_buf ≡ [])
unfolding flush
flush-Keeps now s sc h = elim (Bool-cases (has_message sc)) [
  | inl e ↦ rw e (record { text = append-nil _; settled = λ x. refl }, refl)
  | inr e ↦ rw e (
    record { text = sym (append-nil sc.message_buf); settled = h },
    ground (arith, h, nil-append-eq sc.message_buf),
  )
]

on_message-Keeps :
    (o : Option Text) (sc : Scratch) → IsSettled sc → Keeps sc (on_message o sc) [] (to_list o)
on_message-Keeps none sc h = record { text = sym (append-nil sc.message_buf); settled = h }
on_message-Keeps (some t) sc h = record { text = snoc sc.message_buf t; settled = λ e. cc }

on_event-Keeps :
    (now : Text) (ev : Json) (s : AgentState) (sc : Scratch)
    → IsSettled sc
    → Keeps sc
        (on_event now ev s sc).1
        (message_texts (on_event now ev s sc).0.messages)
        (to_list (content ev))
unfolding on_event
on_event-Keeps now ev s sc h =
    let k = prop "type" ev in
    elim (Bool-cases (is_text "init" k)) [
      | inl e ↦ rw (e, at_init k e) (record { text = sym (append-nil sc.message_buf); settled = h })
      | inr e ↦ elim (Bool-cases (is_text "message" k)) [
        | inl f ↦ rw (e, f) (on_message-Keeps (assistant_text ev) sc h)
        | inr f ↦ elim (Bool-cases (is_text "result" k)) [
          | inl g ↦ elim (Bool-cases (has_message sc)) [
            | inl p ↦ rw (e, f, g, p) (record { text = append-nil _; settled = λ x. refl })
            | inr p ↦
                rw (e, f, g, p) (record { text = sym (append-nil sc.message_buf); settled = h })
          ]
          | inr g ↦ rw (e, f, g) (record { text = sym (append-nil sc.message_buf); settled = h })
        ]
      ]
    ]

Keeps-quiet : (sc : Scratch) → IsSettled sc → Keeps sc sc [] []
Keeps-quiet sc h = record { text = sym (append-nil sc.message_buf); settled = h }

feed-flush :
    (json_parse : Text → Option Json) (now : Text) (s : AgentState) (sc : Scratch)
    → feed json_parse now [] s sc ≡ fed_of (flush now s sc)
unfolding feed
feed-flush json_parse now s sc = refl

-- What one chunk does.
feed-Keeps :
    (json_parse : Text → Option Json) (c : Timed) (s : AgentState) (sc : Scratch)
    → IsSettled sc
    → (is_nil c.chunk ≡ false → decoded json_parse c.chunk ≢ some null)
    → (r : ParseResult) × (after : Scratch) × (feed json_parse c.now c.chunk s sc ≡ fed r after)
      × Keeps sc after (message_texts r.messages) (to_list (content_of json_parse c))
unfolding feed
feed-Keeps json_parse c s sc h ne = elim (Bool-cases (is_nil c.chunk)) [
  | inl e ↦ let (r, after) = flush c.now s sc in (r, after, rw e, rw e (flush-Keeps c.now s sc h).0)
  | inr e ↦ elim (Option-cases (decoded json_parse c.chunk)) [
    | inl f ↦ (
      quiet s,
      sc,
      ground (arith, e, f),
      rw (e, of_chunk-none content json_parse c f) (Keeps-quiet sc h),
    )
    | inr (ev, f) ↦
        let (r, after) = on_event c.now ev s sc in
        (
          r,
          after,
          ground (arith, e, f, is_null-of_ne ev (λ p. ne e (f ∙ p))),
          rw (e, of_chunk-some content json_parse c ev f) (on_event-Keeps c.now ev s sc h),
        )
  ]
]

Keeps-trans :
    (a b c : Scratch) (ms ns got more : List Text)
    → Keeps a b ms got
    → Keeps b c ns more
    → Keeps a c (ms ++ ns) (got ++ more)
Keeps-trans a b c ms ns got more k l = record {
  text = accounts_trans a.message_buf b.message_buf c.message_buf ms ns got more k.text l.text;
  settled = l.settled;
}

-- No chunk that is read decodes to `null`.
abbrev pub IsRegular : (Text → Option Json) → List Timed → Type 0
IsRegular json_parse = All (λ c. is_nil c.chunk ≡ false → decoded json_parse c.chunk ≢ some null)

abbrev pub step : (Text → Option Json) → Timed → AgentState → Scratch → Fed Scratch
step json_parse c s sc = feed json_parse c.now c.chunk s sc

run-Keeps :
    (json_parse : Text → Option Json) (cs : List Timed) (s : AgentState) (sc : Scratch)
    → IsSettled sc
    → IsRegular json_parse cs
    → (t : AgentState) × (after : Scratch) × (ms : List AssistantMessage) × (run
          (step json_parse)
          cs
          s
          sc
        ≡ ran t after ms)
      × Keeps sc after (message_texts ms) (found (content_of json_parse) cs)
unfolding run
run-Keeps json_parse [] s sc h ne = (s, sc, [], refl, Keeps-quiet sc h)
run-Keeps json_parse (c ∷ cs) s sc h ne =
    let (r, mid, e, k) = feed-Keeps json_parse c s sc h ne.0 in
    let (t, after, ns, f, l) = run-Keeps json_parse cs r.state mid k.settled ne.1 in
    (
      t,
      after,
      r.messages ++ ns,
      run-cons (step json_parse) c cs s t sc mid after r ns e f,
      rw (map-append, found-cons)
          (Keeps-trans sc mid after (message_texts r.messages) (message_texts ns) _ _ k l),
    )

Keeps-ended :
    (begin end : Scratch) (ms got : List Text)
    → Keeps begin end ms (got ++ [])
    → end.message_buf ≡ []
    → concat ms ≡ begin.message_buf ++ concat got
Keeps-ended begin end ms got k e =
    sym (append-nil (concat ms))
    ∙ ap (λ t. concat ms ++ t) (sym e)
    ∙ k.text
    ∙ ap (λ g. begin.message_buf ++ concat g) (append-nil got)

-- A stream in which no chunk decodes to `null`, and the empty chunk that ends it, fed to a parser whose
-- buffer is empty or marked as pending, with no other feed of the parser in between: the messages hold
-- exactly the text that was left in the buffer, if any, and then the assistant's text that came, in
-- order; and the buffer is left empty.
pub gemini_run :
    (json_parse : Text → Option Json) (cs : List Timed) (now : Text) (s : AgentState)
    (begin : Scratch)
    → IsSettled begin
    → IsRegular json_parse cs
    → (t : AgentState) × (after : Scratch) × (ms : List AssistantMessage) × (r : ParseResult)
      × (end : Scratch) × (run (step json_parse) cs s begin ≡ ran t after ms)
      × (feed json_parse now [] t after ≡ fed r end)
      × (concat (message_texts (ms ++ r.messages))
          ≡ begin.message_buf ++ concat (found (content_of json_parse) cs))
      × (end.message_buf ≡ [])
gemini_run json_parse cs now s begin b ne =
    let (t, after, ms, e, k) = run-Keeps json_parse cs s begin b ne in
    let (r, end) = flush now t after in
    let (l, empty) = flush-Keeps now t after k.settled in
    let all = Keeps-trans begin after end (message_texts ms) (message_texts r.messages) _ _ k l in
    (
      t,
      after,
      ms,
      r,
      end,
      e,
      feed-flush json_parse now t after,
      rw map-append (
          Keeps-ended begin end (message_texts ms ++ message_texts r.messages)
            (found (content_of json_parse) cs) all empty),
      empty,
    )
