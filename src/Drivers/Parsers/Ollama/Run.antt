-- ===== src/Drivers/Parsers/Ollama/Run.antt =====
-- What the Ollama parser makes of a stream: no token is lost, repeated or moved.
use mathlib.Core.Path.{ap₂}
use cordyceps.Common.{
  if◌then◌else◌, Bool-cases, Option-cases, All, ◌≡◌, refl, sym, ap, ◌∙◌, ◌≢◌, inl, inr, Bool, true,
  false, not, ◌&&◌, ◌||◌, Option, none, some, List, [], ◌∷◌, ◌++◌, map-append, append-nil,
  append_assoc, arith,
}
use cordyceps.Common.Text.{Text}
use cordyceps.Common.Json.{Json, null, bool, num, str, arr, obj, truthy, is_null, prop, is_bool}
use cordyceps.Agents.Types.{AgentState, AssistantMessage, ParseResult, idle}
use cordyceps.Drivers.Parsers.Step.{
  fed_of, accounts_trans, Fed, fed, ran, run, run-cons, message_texts, decoded, found, found-cons,
  to_list, of_chunk, of_chunk-none, of_chunk-some, Timed, is_null-of_ne, quiet, concat,
  concat-append,
}
use cordyceps.Drivers.Parsers.Ollama.{response, is_streaming, finish, on_event, feed}

-- The token of an event that is part of an answer.
abbrev pub content : (Json → Text) → Json → Option Text
content show ev =
    if is_streaming ev || is_bool true (prop "done" ev) then some (response show ev) else none

-- A step from one buffer to another that emits `ms` and takes in `got` accounts for all text.
abbrev Keeps : Text → Text → List Text → List Text → Type 0
Keeps before after ms got = concat ms ++ after ≡ before ++ concat got

finish-Keeps :
    (now : Text) (ev : Json) (t : Text) (s : AgentState)
    → (concat (message_texts (finish now ev t s).0.messages) ≡ t) × ((finish now ev t s).1 ≡ [])
unfolding finish
finish-Keeps now ev [] s = (refl, refl)
finish-Keeps now ev (c ∷ t) s = (append-nil (c ∷ t), refl)

finish-idle :
    (now : Text) (ev : Json) (t : Text) (s : AgentState) → (finish now ev t s).0.state.status ≡ idle
unfolding finish
finish-idle now ev [] s = refl
finish-idle now ev (c ∷ t) s = refl

done_excludes :
    (o : Option Json) (b : Bool)
    → is_bool true o ≡ true
    → (is_bool false o || (not (truthy o) && b)) ≡ false
done_excludes (some (bool true)) b h = refl
done_excludes (some (bool false)) b h = cc
done_excludes none b h = cc
done_excludes (some null) b h = cc
done_excludes (some (num n)) b h = cc
done_excludes (some (str t)) b h = cc
done_excludes (some (arr xs)) b h = cc
done_excludes (some (obj fs)) b h = cc

not_streaming : (ev : Json) → is_bool true (prop "done" ev) ≡ true → is_streaming ev ≡ false
not_streaming ev h = done_excludes (prop "done" ev) _ h

not_null : (ev : Json) → is_bool true (prop "done" ev) ≡ true → is_null ev ≡ false
not_null null h = cc
not_null (bool b) h = refl
not_null (num n) h = refl
not_null (str t) h = refl
not_null (arr xs) h = refl
not_null (obj fs) h = refl

module _ (show : Json → Text) where
  ending :
      (now : Text) (ev : Json) (s : AgentState) (buf : Text)
      → Keeps buf
          (finish now ev (buf ++ response show ev) s).1
          (message_texts (finish now ev (buf ++ response show ev) s).0.messages)
          (response show ev ∷ [])
  ending now ev s buf =
      let t = buf ++ response show ev in
      ap₂ (λ (x y : Text). x ++ y) (finish-Keeps now ev t s).0 (finish-Keeps now ev t s).1
      ∙ append_assoc buf (response show ev) []

  on_event-Keeps :
      (now : Text) (ev : Json) (s : AgentState) (buf : Text)
      → Keeps buf
          (on_event show now ev s buf).1
          (message_texts (on_event show now ev s buf).0.messages)
          (to_list (content show ev))
  unfolding on_event
  on_event-Keeps now ev s buf = elim (Bool-cases (is_streaming ev)) [
    | inl e ↦ rw e (ap (λ t. buf ++ t) (sym (append-nil (response show ev))))
    | inr e ↦ elim (Bool-cases (is_bool true (prop "done" ev))) [
      | inl f ↦ rw (e, f) (ending now ev s buf)
      | inr f ↦ rw (e, f) (sym (append-nil buf))
    ]
  ]

  module _ (json_parse : Text → Option Json) where
    abbrev pub step : Timed → AgentState → Text → Fed Text
    step c s buf = feed show json_parse c.now c.chunk s buf

    feed-Keeps :
        (c : Timed) (s : AgentState) (buf : Text)
        → decoded json_parse c.chunk ≢ some null
        → (r : ParseResult) × (after : Text) × (feed show json_parse c.now c.chunk s buf
            ≡ fed r after)
          × Keeps buf after
              (message_texts r.messages)
              (to_list (of_chunk (content show) json_parse c))
    unfolding feed
    feed-Keeps c s buf ne = elim (Option-cases (decoded json_parse c.chunk)) [
      | inl f ↦ (
        quiet s,
        buf,
        ground (arith, f),
        rw (of_chunk-none (content show) json_parse c f) (sym (append-nil buf)),
      )
      | inr (ev, f) ↦
          let (r, after) = on_event show c.now ev s buf in
          (
            r,
            after,
            ground (arith, f, is_null-of_ne ev (λ p. ne (f ∙ p))),
            rw (of_chunk-some (content show) json_parse c ev f) (on_event-Keeps c.now ev s buf),
          )
    ]

    run-Keeps :
        (cs : List Timed) (s : AgentState) (buf : Text)
        → All (λ c. decoded json_parse c.chunk ≢ some null) cs
        → (t : AgentState) × (after : Text) × (ms : List AssistantMessage) × (run step cs s buf
            ≡ ran t after ms)
          × Keeps buf after (message_texts ms) (found (of_chunk (content show) json_parse) cs)
    unfolding run
    run-Keeps [] s buf ne = (s, buf, [], refl, sym (append-nil buf))
    run-Keeps (c ∷ cs) s buf ne =
        let (r, mid, e, k) = feed-Keeps c s buf ne.0 in
        let (t, after, ns, f, l) = run-Keeps cs r.state mid ne.1 in
        (
          t,
          after,
          r.messages ++ ns,
          run-cons step c cs s t buf mid after r ns e f,
          rw (map-append, found-cons)
              (accounts_trans buf mid after (message_texts r.messages) (message_texts ns)
                (to_list (of_chunk (content show) json_parse c))
                (found (of_chunk (content show) json_parse) cs) k l),
        )

    -- The event that ends an answer empties the buffer.
    feed_done :
        (c : Timed) (ev : Json) (s : AgentState) (buf : Text)
        → decoded json_parse c.chunk ≡ some ev
        → is_bool true (prop "done" ev) ≡ true
        → feed show json_parse c.now c.chunk s buf
          ≡ fed_of (finish c.now ev (buf ++ response show ev) s)
    unfolding feed on_event
    feed_done c ev s buf e d = ground (arith, e, d, not_streaming ev d, not_null ev d)

-- A stream in which no chunk decodes to `null`, ended by an event with `done: true`, with no other feed
-- of the parser in between: the messages hold exactly the text that was left in the buffer, if any, and
-- then the tokens that came, in order; the buffer is left empty and the agent idle.
pub ollama_run :
    (show : Json → Text) (json_parse : Text → Option Json) (cs : List Timed) (c : Timed) (ev : Json)
    (s : AgentState) (before : Text)
    → All (λ d. decoded json_parse d.chunk ≢ some null) cs
    → decoded json_parse c.chunk ≡ some ev
    → is_bool true (prop "done" ev) ≡ true
    → (t : AgentState) × (buf : Text) × (ms : List AssistantMessage) × (r : ParseResult) × (run
          (step show json_parse)
          cs
          s
          before
        ≡ ran t buf ms)
      × (feed show json_parse c.now c.chunk t buf ≡ fed r [])
      × (concat (message_texts (ms ++ r.messages))
          ≡ (before ++ concat (found (of_chunk (content show) json_parse) cs)) ++ response show ev)
      × (r.state.status ≡ idle)
ollama_run show json_parse cs c ev s before ne e d =
    let (t, buf, ms, f, k) = run-Keeps show json_parse cs s before ne in
    let whole = buf ++ response show ev in
    let (r, after) = finish c.now ev whole t in
    let (texts, empty) = finish-Keeps c.now ev whole t in
    (
      t,
      buf,
      ms,
      r,
      f,
      feed_done show json_parse c ev t buf e d ∙ ap (λ b. fed r b) empty,
      rw (map-append, concat-append)
          (ap (λ x. concat (message_texts ms) ++ x) texts
            ∙ sym (append_assoc (concat (message_texts ms)) buf (response show ev))
            ∙ ap (λ x. x ++ response show ev) k),
      finish-idle c.now ev whole t,
    )
