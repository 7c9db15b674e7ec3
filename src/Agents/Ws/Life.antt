-- ===== src/Agents/Ws/Life.antt =====
-- What holds of a server agent whatever happens to it.
use cordyceps.Common.{
  ltb, by_test, ℕ, ◌-◌, String, ◌≡◌, refl, Bool, true, false, not, ◌&&◌, ◌||◌, some, List, [], ◌∷◌,
}
use cordyceps.Agents.Types.{starting, idle, busy}
use cordyceps.Agents.Feed.{State, Parsed, output, emit, same_status}
use cordyceps.Agents.Feed.Steps.{
  Steps, stays, emits, exits, step, Steps_trans, set_status-Steps, feed_chunk-Steps,
}
use cordyceps.Agents.Feed.Mirror.{
  IsMirrored, Steps-IsMirrored, new_agent-IsMirrored, Steps-exit_code,
}
use cordyceps.Agents.Ws.{
  Ws, Reply, closed, new_ws, is_connecting, is_open, can_give, can_close, is_unsettled,
  on_connection_closed, on_open, on_message, on_close, on_server_exit, interrupt, submit_rest,
  submit, approve, reject, raw_write, kill, kill_rest, Event, spawned, connects, opened, failed,
  connect_timeout, message, close, server_exit, submitted, resumed, waited, interrupted, approved,
  rejected, killed, kill_elapsed, written, timeout, on_event, on_events,
}

module _ {R : Type 0} (parse : String → State R → Parsed R) where
  abbrev Goes : Ws R → Ws R → Type 0
  Goes v w = Steps v.agent w.agent

  abbrev GoesReply : Ws R → Ws R × Reply → Type 0
  GoesReply v r = Steps v.agent r.0.agent

  on_connection_closed-Steps :
      (code : ℕ) (w : Ws R) → Steps w.agent (on_connection_closed code w).agent
  unfolding on_connection_closed
  on_connection_closed-Steps code w =
      by_test (Goes w) w.agent.has_exited (λ x. stays) (λ x. step (exits code x))

  on_open-Steps : (w : Ws R) → Steps w.agent (on_open w).agent
  unfolding on_open
  on_open-Steps w =
      by_test (Goes w) (is_connecting w.socket)
        (λ x.
          by_test (Steps w.agent) (same_status w.agent.state.status starting)
            (λ y. set_status-Steps idle w.agent) (λ y. stays))
        (λ x. stays)

  on_message-Steps : (text : String) (w : Ws R) → Steps w.agent (on_message parse text w).agent
  unfolding on_message
  on_message-Steps text w =
      by_test (Goes w) (can_give w.socket)
        (λ x.
          Steps_trans (step (emits (output text) refl))
            (feed_chunk-Steps parse text (emit (output text) w.agent)))
        (λ x. stays)

  interrupt-Steps : (w : Ws R) → Steps w.agent (interrupt w).agent
  unfolding interrupt
  interrupt-Steps w = by_test (Goes w) (w.agent.has_exited || not w.ready) (λ x. stays) (λ x. stays)

  submit_rest-Steps : (e : Bool) (w : Ws R) → Steps w.agent (submit_rest e w).agent
  submit_rest-Steps true w = stays
  submit_rest-Steps false w = stays

  submit-Steps : (i e : Bool) (w : Ws R) → Steps w.agent (submit i e w).0.agent
  unfolding submit
  submit-Steps i e w =
      by_test (GoesReply w) w.agent.has_exited (λ x. stays)
        (λ x.
          by_test (GoesReply w) (not w.ready) (λ y. stays)
            (λ y.
              by_test (GoesReply w) (i && same_status w.agent.state.status busy)
                (λ z. interrupt-Steps w) (λ z. submit_rest-Steps e w)))

  -- Every call and event makes steps of an agent.
  on_event-Steps : (e : Event) (w : Ws R) → Steps w.agent (on_event parse e w).agent
  unfolding on_event on_close on_server_exit approve reject raw_write kill kill_rest
  on_event-Steps spawned w = stays
  on_event-Steps connects w = stays
  on_event-Steps opened w = on_open-Steps w
  on_event-Steps failed w = stays
  on_event-Steps connect_timeout w =
      by_test (Goes w) (is_unsettled w.connection) (λ x. stays) (λ x. stays)
  on_event-Steps (message text) w = on_message-Steps text w
  on_event-Steps (close code) w =
      by_test (Goes w) (can_close w.socket)
        (λ x. on_connection_closed-Steps code (record w { socket = closed })) (λ x. stays)
  on_event-Steps (server_exit code) w =
      by_test (Goes w) w.server (λ x. on_connection_closed-Steps code (record w { server = false }))
        (λ x. stays)
  on_event-Steps (submitted i e) w = submit-Steps i e w
  on_event-Steps (resumed e) w = submit_rest-Steps e w
  on_event-Steps waited w = stays
  on_event-Steps interrupted w = interrupt-Steps w
  on_event-Steps approved w = by_test (GoesReply w) w.agent.has_exited (λ x. stays) (λ x. stays)
  on_event-Steps rejected w = by_test (GoesReply w) w.agent.has_exited (λ x. stays) (λ x. stays)
  on_event-Steps killed w = by_test (Goes w) w.agent.has_exited (λ x. stays) (λ x. stays)
  on_event-Steps kill_elapsed w =
      by_test (Goes w) (ltb 0 w.kills)
        (λ x. on_connection_closed-Steps 0 (record w { kills = w.kills - 1 })) (λ x. stays)
  on_event-Steps (written frame) w =
      by_test (GoesReply w) w.agent.has_exited (λ x. stays)
        (λ x. by_test (GoesReply w) (not (is_open w.socket)) (λ y. stays) (λ y. stays))
  on_event-Steps (timeout k) w = stays

  -- So do all of them together.
  on_events-Steps : (es : List Event) (w : Ws R) → Steps w.agent (on_events parse es w).agent
  unfolding on_events
  on_events-Steps [] w = stays
  on_events-Steps (e ∷ es) w =
      Steps_trans (on_event-Steps e w) (on_events-Steps es (on_event parse e w))

-- Whatever calls, frames, closes, exits of the server and timers come, the bus has the state of a
-- websocket agent, which is the state that it published last; its transcript holds the messages that
-- it emitted, in order; it has exited just when it has emitted one exit, whose code is its exit code
-- and what the exit promise gives.
pub ws-IsMirrored :
    {R : Type 0} (parse : String → State R → Parsed R) (es : List Event) (s : State R)
    → IsMirrored (on_events parse es (new_ws s)).agent
ws-IsMirrored parse es s =
    Steps-IsMirrored (on_events-Steps parse es (new_ws s)) (new_agent-IsMirrored s)

-- Once a websocket agent has an exit code, it keeps it, whatever closes, exits of the server and kills
-- come.
pub ws_exit_code :
    {R : Type 0} (parse : String → State R → Parsed R) (es fs : List Event) (s : State R) (c : ℕ)
    → (on_events parse es (new_ws s)).agent.exit_code ≡ some c
    → (on_events parse fs (on_events parse es (new_ws s))).agent.exit_code ≡ some c
ws_exit_code parse es fs s c h =
    Steps-exit_code (on_events-Steps parse fs (on_events parse es (new_ws s))) c
      (ws-IsMirrored parse es s) h
