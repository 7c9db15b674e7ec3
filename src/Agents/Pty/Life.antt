-- ===== src/Agents/Pty/Life.antt =====
-- What holds of a terminal agent whatever happens to it.
use cordyceps.Common.{
  ltb, by_test, ℕ, String, ◌≡◌, refl, ap, ◌∙◌, Bool, true, false, not, ◌&&◌, ◌||◌, List, [], ◌∷◌,
  arith,
}
use cordyceps.Agents.Types.{busy}
use cordyceps.Agents.Feed.{State, Parsed, output, emit, new_agent, same_status}
use cordyceps.Agents.Feed.Steps.{
  Steps, stays, emits, exits, step, Steps_trans, feed_chunk-Steps, feed_chunk_keeps,
}
use cordyceps.Agents.Feed.Mirror.{IsMirrored, Steps-IsMirrored, new_agent-IsMirrored}
use cordyceps.Agents.Feed.Waiters.{
  wait, IsFair, no_waiters-IsFair, wait-IsFair, deliver-IsFair, expire-IsFair, expire_answered,
  count_answers,
}
use cordyceps.Agents.Pty.{
  Pty, Ask, Reply, new_pty, type_in, ask, submit_rest, interrupt, submit, approve, reject,
  raw_write, kill, on_pty_data, on_pty_exit, Event, started, submitted, resumed, waited,
  interrupted, approved, rejected, killed, written, wrote, data_came, exit, timeout, on_event,
  on_events,
}

module _ {R : Type 0} (parse : String → State R → Parsed R) (s : State R) where
  -- The agent came by steps of an agent, a terminal that is alive has not reported its exit, and
  -- the waiters are settled once.
  record IsLive (p : Pty R) : Type 0 where
    steps : Steps (new_agent s) p.agent
    silent : not (p.alive && p.agent.has_exited) ≡ true
    fair : IsFair p.waiters

  abbrev LeavesLive : Pty R × Reply → Type 0
  LeavesLive r = IsLive r.0

  type_in-IsLive : (t : String) (p : Pty R) → IsLive p → IsLive (type_in t p)
  type_in-IsLive t p h =
      by_test IsLive p.alive (λ e. record { steps = h.steps; silent = h.silent; fair = h.fair })
        (λ e. h)

  wait-IsLive : (p : Pty R) → IsLive p → IsLive (record p { waiters = wait p.waiters })
  wait-IsLive p h = record {
    steps = h.steps;
    silent = h.silent;
    fair = wait-IsFair p.waiters h.fair;
  }

  submit_rest-IsLive : (e : Bool) (p : Pty R) → IsLive p → IsLive (submit_rest e p)
  submit_rest-IsLive true p h = record {
    steps = h.steps;
    silent = h.silent;
    fair = wait-IsFair p.waiters h.fair;
  }
  submit_rest-IsLive false p h = record { steps = h.steps; silent = h.silent; fair = h.fair }

  ask-IsLive : (a : Ask) (p : Pty R) → IsLive p → IsLive (ask a p)
  ask-IsLive a p h = record { steps = h.steps; silent = h.silent; fair = h.fair }

  interrupt-IsLive : (p : Pty R) → IsLive p → IsLive (interrupt p)
  unfolding interrupt
  interrupt-IsLive p h =
      by_test IsLive p.agent.has_exited (λ e. h) (λ e. ask-IsLive Ask.interrupts p h)

  submit-IsLive : (i e : Bool) (p : Pty R) → IsLive p → IsLive (submit i e p).0
  unfolding submit
  submit-IsLive i e p h =
      by_test LeavesLive p.agent.has_exited (λ x. h)
        (λ x.
          by_test LeavesLive (i && same_status p.agent.state.status busy)
            (λ y. interrupt-IsLive p h) (λ y. submit_rest-IsLive e p h))

  on_pty_data-IsLive : (t : String) (p : Pty R) → IsLive p → IsLive (on_pty_data parse t p)
  unfolding on_pty_data
  on_pty_data-IsLive t p h = record {
    steps = Steps_trans h.steps (
        Steps_trans (step (emits (output t) refl))
          (feed_chunk-Steps parse t (emit (output t) p.agent)));
    silent =
        ap (λ x. not (p.alive && x)) (feed_chunk_keeps parse t (emit (output t) p.agent))
        ∙ h.silent;
    fair = deliver-IsFair (parse t p.agent.state).messages p.waiters h.fair;
  }

  on_pty_exit-IsLive : (code : ℕ) (p : Pty R) → IsLive p → IsLive (on_pty_exit code p)
  unfolding on_pty_exit
  on_pty_exit-IsLive code p h =
      by_test IsLive p.alive
        (λ e. record {
          steps = Steps_trans h.steps (step (exits code (ground (arith, e, h.silent))));
          silent = refl;
          fair = h.fair;
        })
        (λ e. h)

  on_event-IsLive : (e : Event) (p : Pty R) → IsLive p → IsLive (on_event parse e p)
  unfolding on_event approve reject raw_write kill
  on_event-IsLive started p h =
      by_test IsLive p.agent.has_exited (λ x. h)
        (λ x. record { steps = h.steps; silent = ground (arith, x); fair = h.fair })
  on_event-IsLive (submitted i e) p h = submit-IsLive i e p h
  on_event-IsLive (resumed e) p h = submit_rest-IsLive e p h
  on_event-IsLive waited p h = wait-IsLive p h
  on_event-IsLive interrupted p h = interrupt-IsLive p h
  on_event-IsLive approved p h =
      by_test LeavesLive p.agent.has_exited (λ x. h) (λ x. ask-IsLive Ask.approves p h)
  on_event-IsLive rejected p h =
      by_test LeavesLive p.agent.has_exited (λ x. h) (λ x. ask-IsLive Ask.rejects p h)
  on_event-IsLive killed p h =
      by_test IsLive (p.agent.has_exited || not p.alive) (λ x. h)
        (λ x. record { steps = h.steps; silent = h.silent; fair = h.fair })
  on_event-IsLive (written t) p h =
      by_test LeavesLive p.agent.has_exited (λ x. h) (λ x. type_in-IsLive t p h)
  on_event-IsLive (wrote t) p h = type_in-IsLive t p h
  on_event-IsLive (data_came t) p h = on_pty_data-IsLive t p h
  on_event-IsLive (exit code) p h = on_pty_exit-IsLive code p h
  on_event-IsLive (timeout k) p h = record {
    steps = h.steps;
    silent = h.silent;
    fair = expire-IsFair k p.waiters h.fair;
  }

  on_events-IsLive : (es : List Event) (p : Pty R) → IsLive p → IsLive (on_events parse es p)
  unfolding on_events
  on_events-IsLive [] p h = h
  on_events-IsLive (e ∷ es) p h = on_events-IsLive es (on_event parse e p) (on_event-IsLive e p h)

  new_pty-IsLive : IsLive (new_pty s)
  new_pty-IsLive = record { steps = stays; silent = refl; fair = no_waiters-IsFair }

-- Whatever calls, output, exit and timers come, the bus has the state of a terminal agent, which is
-- the state that it published last; its transcript holds the messages that it emitted, in order; it
-- has exited just when it has emitted one exit, whose code is its exit code and what the exit
-- promise gives.
pub pty-IsMirrored :
    {R : Type 0} (parse : String → State R → Parsed R) (es : List Event) (s : State R)
    → IsMirrored (on_events parse es (new_pty s)).agent
pty-IsMirrored parse es s =
    Steps-IsMirrored (on_events-IsLive parse s es (new_pty s) (new_pty-IsLive parse s)).steps
      (new_agent-IsMirrored s)

-- Whatever happens, a wait for a message that has begun (a submit that expects one is such a wait) is
-- settled exactly once when its timer has fired: by a message that came before, or by the timer.
pub waiter_settled :
    {R : Type 0} (parse : String → State R → Parsed R) (es : List Event) (s : State R) (k : ℕ)
    → ltb k (on_events parse es (new_pty s)).waiters.next ≡ true
    → count_answers k (on_event parse (timeout k) (on_events parse es (new_pty s))).waiters.answers
      ≡ 1
unfolding on_event
waiter_settled parse es s k h =
    expire_answered k (on_events parse es (new_pty s)).waiters
      (on_events-IsLive parse s es (new_pty s) (new_pty-IsLive parse s)).fair h
