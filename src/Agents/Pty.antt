-- ===== src/Agents/Pty.antt =====
-- `PtyAgentController` of src/agents/pty-controller.ts, with the guards of `PtyProcess` of
-- src/core/pty.ts that it goes through. The driver's parser is an argument; its control writes to
-- the terminal at any time (`wrote`). The terminal reports its exit once.
pub mod Life
pub mod Scrollback
mod Tests
use cordyceps.Common.{
  ltb, leb, ◌==◌, if◌then◌else◌, ltb→lt, lt→ltb, leb→le, ==_iff, Bool-cases, Option-cases,
  String-cases, str_eq_refl, str_eq-false, length, get_elem?, take, drop, keep, any, last?,
  length-append, take-append-drop, length-take, length-drop, All, All-append, All-map,
  drop-append_of_le, take-append_of_le, drop-length-append, take-length, append-ne-nil,
  slice-append_of_le, ℕ, zero, suc, ◌+◌, ◌-◌, ◌*◌, ◌/◌, ◌%◌, ◌≤◌, ◌<◌, min, max, String, ◌≡◌, refl,
  sym, ap, ◌∙◌, ◌≢◌, ◌↔◌, ◌⊎◌, inl, inr, Bool, true, false, not, ◌&&◌, ◌||◌, Option, none, some,
  List, [], ◌∷◌, ◌++◌, map-append, append-nil, append_assoc, arith, str_eq, eq_iff, map,
}
use cordyceps.Agents.Types.{Status, busy}
use cordyceps.Agents.Feed.{
  State, Parsed, output, Agent, emit, new_agent, same_status, feed_chunk, finish,
}
use cordyceps.Agents.Feed.Waiters.{Waiters, no_waiters, wait, deliver, expire}

-- The calls of the driver's control.
pub data Ask : Type 0 where
  submits interrupts approves rejects : Ask

-- `alive` is false before `spawn` and once the terminal has exited. `typed` is what was written to
-- the terminal, `killed` how often it was signalled, `asked` the calls of the driver's control.
pub record Pty (R : Type 0) : Type 0 where
  pub agent : Agent R
  pub alive : Bool
  pub scrollback : List String
  pub typed : List String
  pub killed : ℕ
  pub asked : List Ask
  pub waiters : Waiters

-- `throws` is the error of an agent that has exited.
pub data Reply : Type 0 where
  throws returns : Reply

abbrev pub scrollback_max : ℕ
scrollback_max = 500

-- The push and the `splice` that follows.
unfoldable pub push_scrollback : String → List String → List String
push_scrollback chunk l =
    let l' = l ++ chunk ∷ [] in
    if ltb scrollback_max (length l') then drop (length l' - scrollback_max) l' else l'

module _ {R : Type 0} where
  abbrev pub new_pty : State R → Pty R
  new_pty s = record {
    agent = new_agent s;
    alive = false;
    scrollback = [];
    typed = [];
    killed = 0;
    asked = [];
    waiters = no_waiters;
  }

  -- `start`: the listeners, and the spawn.
  abbrev pub start : Pty R → Pty R
  start p = record p { alive = true }

  -- `pty.write`
  abbrev pub type_in : String → Pty R → Pty R
  type_in s p = if p.alive then record p { typed = p.typed ++ s ∷ [] } else p

  abbrev pub ask : Ask → Pty R → Pty R
  ask a p = record p { asked = p.asked ++ a ∷ [] }

  -- `submit` from the wait on; `await` of an interrupt stands in front of it.
  abbrev pub submit_rest : Bool → Pty R → Pty R
  submit_rest expect_message p =
      ask submits (if expect_message then record p { waiters = wait p.waiters } else p)

  unfoldable pub interrupt : Pty R → Pty R
  interrupt p = if p.agent.has_exited then p else ask interrupts p

  -- What `submit` does at once. With an interrupt the rest is the event `resumed`.
  unfoldable pub submit : Bool → Bool → Pty R → Pty R × Reply
  unfolding interrupt
  submit interrupt_if_busy expect_message p =
      if p.agent.has_exited
      then (p, throws)
      else if interrupt_if_busy && same_status p.agent.state.status busy
      then (interrupt p, returns)
      else (submit_rest expect_message p, returns)

  unfoldable pub approve : Pty R → Pty R × Reply
  approve p = if p.agent.has_exited then (p, throws) else (ask approves p, returns)

  unfoldable pub reject : Pty R → Pty R × Reply
  reject p = if p.agent.has_exited then (p, throws) else (ask rejects p, returns)

  unfoldable pub raw_write : String → Pty R → Pty R × Reply
  raw_write s p = if p.agent.has_exited then (p, throws) else (type_in s p, returns)

  unfoldable pub kill : Pty R → Pty R
  kill p = if p.agent.has_exited || not p.alive then p else record p { killed = p.killed + 1 }

  unfoldable pub on_pty_data : (String → State R → Parsed R) → String → Pty R → Pty R
  unfolding push_scrollback feed_chunk deliver
  on_pty_data parse s p = record p {
    scrollback = push_scrollback s p.scrollback;
    agent = feed_chunk parse s (emit (output s) p.agent);
    waiters = deliver (parse s p.agent.state).messages p.waiters;
  }

  unfoldable pub on_pty_exit : ℕ → Pty R → Pty R
  unfolding finish
  on_pty_exit code p =
      if p.alive then record p { alive = false; agent = finish code p.agent } else p

pub data Event : Type 0 where
  started : Event
  submitted : (interrupt_if_busy expect_message : Bool) → Event
  resumed : (expect_message : Bool) → Event
  waited interrupted approved rejected killed : Event
  written wrote data_came : String → Event
  exit : ℕ → Event
  timeout : ℕ → Event

module _ {R : Type 0} (parse : String → State R → Parsed R) where
  unfoldable pub on_event : Event → Pty R → Pty R
  unfolding submit interrupt approve reject raw_write kill on_pty_data on_pty_exit wait expire
  on_event started p = if p.agent.has_exited then p else start p
  on_event (submitted i e) p = (submit i e p).0
  on_event (resumed e) p = submit_rest e p
  on_event waited p = record p { waiters = wait p.waiters }
  on_event interrupted p = interrupt p
  on_event approved p = (approve p).0
  on_event rejected p = (reject p).0
  on_event killed p = kill p
  on_event (written s) p = (raw_write s p).0
  on_event (wrote s) p = type_in s p
  on_event (data_came s) p = on_pty_data parse s p
  on_event (exit code) p = on_pty_exit code p
  on_event (timeout k) p = record p { waiters = expire k p.waiters }

  unfoldable pub on_events : List Event → Pty R → Pty R
  unfolding on_event
  on_events [] p = p
  on_events (e ∷ es) p = on_events es (on_event e p)
