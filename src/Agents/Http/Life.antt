-- ===== src/Agents/Http/Life.antt =====
-- What holds of an HTTP agent whatever happens to it.
use cordyceps.Common.{by_test, ◌+◌, String, refl, Bool, Option, none, some, List, [], ◌∷◌, ◌++◌}
use cordyceps.Agents.Types.{idle, busy}
use cordyceps.Agents.Feed.{State, Parsed, output, Agent, same_status}
use cordyceps.Agents.Feed.Steps.{
  Steps, stays, emits, exits, step, Steps_trans, set_status-Steps, feed_chunk-Steps,
}
use cordyceps.Agents.Feed.Mirror.{IsMirrored, Steps-IsMirrored, new_agent-IsMirrored}
use cordyceps.Agents.Http.{
  Submit, Request, Http, Reply, find_submit, find_request, is_active, new_http, interrupt, kill,
  write_body, stage, submit, resume_barging, resume_staging, on_chunk, on_output, when_busy,
  on_done, on_failed, on_timeout, Event, submitted, interrupt_done, control_done, control_threw,
  came, chunk, done, failed, timeout, interrupted, killed, written, on_event, on_events,
}

module _ {R : Type 0} (parse : String → State R → Parsed R) (body_of : String → Option String)
    (default_body : String → String) where
  abbrev Goes : Http R → Http R → Type 0
  Goes g h = Steps g.agent h.agent

  abbrev GoesReply : Http R → Http R × Reply → Type 0
  GoesReply g r = Steps g.agent r.0.agent

  write_body-Steps : (o : Option String) (h : Http R) → Steps h.agent (write_body o h).agent
  write_body-Steps none h = stays
  write_body-Steps (some s) h = stays

  stage-Steps : (s : Submit) (h : Http R) → Steps h.agent (stage body_of s h).agent
  stage-Steps s h =
      write_body-Steps (body_of s.prompt)
        (record h { pending = none; staging = h.staging ++ s ∷ [] })

  interrupt-Steps : (h : Http R) → Steps h.agent (interrupt h).agent
  unfolding interrupt
  interrupt-Steps h = by_test (Goes h) h.agent.has_exited (λ x. stays) (λ x. stays)

  submit-Steps : (i : Bool) (p : String) (h : Http R) → Steps h.agent (submit body_of i p h).0.agent
  unfolding submit
  submit-Steps i p h =
      let s : Submit = record { id = h.next_submit; prompt = p } in
      let h' = record h { next_submit = h.next_submit + 1 } in
      by_test (GoesReply h) h.agent.has_exited (λ x. stays)
        (λ x.
          by_test (GoesReply h) (is_active h.active)
            (λ y.
              by_test (GoesReply h) i
                (λ z. interrupt-Steps (record h' { barging = h.barging ++ s ∷ [] })) (λ z. stays))
            (λ y. stage-Steps s h'))

  resume_barging-Steps :
      (o : Option Submit) (h : Http R) → Steps h.agent (resume_barging body_of o h).agent
  resume_barging-Steps none h = stays
  resume_barging-Steps (some s) h = stage-Steps s (record h { barging = _ })

  resume_staging-Steps :
      (o : Option Submit) (h : Http R) → Steps h.agent (resume_staging default_body o h).agent
  resume_staging-Steps none h = stays
  resume_staging-Steps (some s) h = set_status-Steps busy h.agent

  when_busy-Steps : (a : Agent R) → Steps a (when_busy a)
  when_busy-Steps a =
      by_test (Steps a) (same_status a.state.status busy) (λ x. set_status-Steps idle a)
        (λ x. stays)

  on_chunk-Steps :
      (s : String) (o : Option Request) (h : Http R) → Steps h.agent (on_chunk parse s o h).agent
  unfolding on_chunk
  on_chunk-Steps s none h = stays
  on_chunk-Steps s (some r) h = feed_chunk-Steps parse s h.agent

  on_output-Steps :
      (s : String) (o : Option Request) (h : Http R) → Steps h.agent (on_output s o h).agent
  on_output-Steps s none h = stays
  on_output-Steps s (some r) h = step (emits (output s) refl)

  on_done-Steps : (o : Option Request) (h : Http R) → Steps h.agent (on_done o h).agent
  unfolding on_done
  on_done-Steps none h = stays
  on_done-Steps (some r) h = when_busy-Steps h.agent

  on_failed-Steps : (o : Option Request) (h : Http R) → Steps h.agent (on_failed o h).agent
  unfolding on_failed
  on_failed-Steps none h = stays
  on_failed-Steps (some r) h = when_busy-Steps h.agent

  on_timeout-Steps : (o : Option Request) (h : Http R) → Steps h.agent (on_timeout o h).agent
  on_timeout-Steps none h = stays
  on_timeout-Steps (some r) h = stays

  on_event-Steps :
      (e : Event) (h : Http R) → Steps h.agent (on_event parse body_of default_body e h).agent
  unfolding on_event kill
  on_event-Steps (submitted i p) h = submit-Steps i p h
  on_event-Steps (interrupt_done k) h = resume_barging-Steps (find_submit k h.barging) h
  on_event-Steps (control_done k) h = resume_staging-Steps (find_submit k h.staging) h
  on_event-Steps (control_threw k) h = stays
  on_event-Steps (came k s) h = on_output-Steps s (find_request k h.running) h
  on_event-Steps (chunk k s) h = on_chunk-Steps s (find_request k h.running) h
  on_event-Steps (done k) h = on_done-Steps (find_request k h.running) h
  on_event-Steps (failed k) h = on_failed-Steps (find_request k h.running) h
  on_event-Steps (timeout k) h = on_timeout-Steps (find_request k h.running) h
  on_event-Steps interrupted h = interrupt-Steps h
  on_event-Steps killed h = by_test (Goes h) h.agent.has_exited (λ x. stays) (λ x. step (exits 0 x))
  on_event-Steps (written s) h = stays

  on_events-Steps :
      (es : List Event) (h : Http R)
      → Steps h.agent (on_events parse body_of default_body es h).agent
  unfolding on_events
  on_events-Steps [] h = stays
  on_events-Steps (e ∷ es) h =
      Steps_trans (on_event-Steps e h)
        (on_events-Steps es (on_event parse body_of default_body e h))

-- Whatever calls, responses, failures and timers come, the bus has the state of an HTTP agent, which
-- is the state that it published last; its transcript holds the messages that it emitted, in order; it
-- has exited just when it has emitted one exit, whose code is its exit code and what the exit promise
-- gives.
pub http-IsMirrored :
    {R : Type 0} (parse : String → State R → Parsed R) (body_of : String → Option String)
    (default_body : String → String) (es : List Event) (s : State R)
    → IsMirrored (on_events parse body_of default_body es (new_http s)).agent
http-IsMirrored parse body_of default_body es s =
    Steps-IsMirrored (on_events-Steps parse body_of default_body es (new_http s))
      (new_agent-IsMirrored (record s { status = idle }))
