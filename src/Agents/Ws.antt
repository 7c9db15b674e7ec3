-- ===== src/Agents/Ws.antt =====
-- `ServerWsAgentController` of src/agents/server-ws-controller.ts: its socket, the server process it
-- may have spawned, and the calls and events that interleave with them. Each event that the socket,
-- the process or a timer cannot raise at the time changes nothing here. The driver's control sends
-- frames at any time, by `raw_write`.
pub mod Life
mod Tests
use cordyceps.Common.{
  ltb, leb, ◌==◌, if◌then◌else◌, ltb→lt, lt→ltb, leb→le, ==_iff, Bool-cases, Option-cases,
  String-cases, str_eq_refl, str_eq-false, by_test, length, get_elem?, take, drop, keep, any, last?,
  length-append, take-append-drop, length-take, length-drop, All, All-append, All-map,
  drop-append_of_le, take-append_of_le, drop-length-append, take-length, append-ne-nil,
  slice-append_of_le, ℕ, zero, suc, ◌+◌, ◌-◌, ◌*◌, ◌/◌, ◌%◌, ◌≤◌, ◌<◌, min, max, String, ◌≡◌, refl,
  sym, ap, ◌∙◌, ◌≢◌, ◌↔◌, ◌⊎◌, inl, inr, Bool, true, false, not, ◌&&◌, ◌||◌, Option, none, some,
  List, [], ◌∷◌, ◌++◌, map-append, append-nil, append_assoc, arith, str_eq, eq_iff, map,
}
use cordyceps.Agents.Types.{Status, starting, idle, busy}
use cordyceps.Agents.Feed.{
  State, Parsed, output, Agent, emit, new_agent, same_status, set_status, feed_chunk, finish,
}
use cordyceps.Agents.Feed.Waiters.{Waiters, no_waiters, wait, deliver, expire}

-- `readyState` of the socket, `absent` before there is one.
pub data Socket : Type 0 where
  absent connecting open_now closing closed : Socket

-- The promise of `connectWs`.
pub data Connection : Type 0 where
  unsettled connected refused : Connection

pub data Ask : Type 0 where
  submits interrupts approves rejects : Ask

-- `server` tells whether the spawned process runs, `signals` how often it was signalled, `kills` the
-- calls of `kill` that wait for their 500 ms, and `sent` the frames, in order.
pub record Ws (R : Type 0) : Type 0 where
  pub agent : Agent R
  pub ready : Bool
  pub socket : Socket
  pub connection : Connection
  pub server : Bool
  pub signals : ℕ
  pub kills : ℕ
  pub sent : List String
  pub asked : List Ask
  pub waiters : Waiters

pub data Reply : Type 0 where
  throws_exited throws_not_ready throws_not_open returns : Reply

abbrev pub is_connecting : Socket → Bool
is_connecting connecting = true
is_connecting _ = false

abbrev pub is_open : Socket → Bool
is_open open_now = true
is_open _ = false

-- A socket that can still give messages, and one that can still close.
abbrev pub can_give : Socket → Bool
can_give open_now = true
can_give closing = true
can_give _ = false

abbrev pub can_close : Socket → Bool
can_close absent = false
can_close closed = false
can_close _ = true

-- `ws?.close()`
abbrev pub close_socket : Socket → Socket
close_socket absent = absent
close_socket closed = closed
close_socket _ = closing

abbrev pub settle : Connection → Connection → Connection
settle c unsettled = c
settle c d = d

abbrev pub is_unsettled : Connection → Bool
is_unsettled unsettled = true
is_unsettled _ = false

module _ {R : Type 0} where
  abbrev pub new_ws : State R → Ws R
  new_ws s = record {
    agent = new_agent s;
    ready = false;
    socket = absent;
    connection = unsettled;
    server = false;
    signals = 0;
    kills = 0;
    sent = [];
    asked = [];
    waiters = no_waiters;
  }

  unfoldable pub on_connection_closed : ℕ → Ws R → Ws R
  unfolding finish
  on_connection_closed code w =
      if w.agent.has_exited then w else record w { agent = finish code w.agent }

  -- The handlers that `connectWs` puts on the socket.
  unfoldable pub on_open : Ws R → Ws R
  unfolding set_status
  on_open w =
      if is_connecting w.socket
      then record w {
        socket = open_now;
        ready = true;
        connection = settle connected w.connection;
        agent =
            if same_status w.agent.state.status starting then set_status idle w.agent else w.agent;
      }
      else w

  abbrev pub on_error : Ws R → Ws R
  on_error w = record w { connection = settle refused w.connection }

  abbrev pub on_connect_timeout : Ws R → Ws R
  on_connect_timeout w =
      if is_unsettled w.connection
      then record w { socket = close_socket w.socket; connection = refused }
      else w

  unfoldable pub on_message : (String → State R → Parsed R) → String → Ws R → Ws R
  unfolding feed_chunk deliver
  on_message parse text w =
      if can_give w.socket
      then record w {
        agent = feed_chunk parse text (emit (output text) w.agent);
        waiters = deliver (parse text w.agent.state).messages w.waiters;
      }
      else w

  unfoldable pub on_close : ℕ → Ws R → Ws R
  unfolding on_connection_closed
  on_close code w =
      if can_close w.socket then on_connection_closed code (record w { socket = closed }) else w

  -- The exit of the server process.
  unfoldable pub on_server_exit : ℕ → Ws R → Ws R
  unfolding on_connection_closed
  on_server_exit code w =
      if w.server then on_connection_closed code (record w { server = false }) else w

  abbrev pub ask : Ask → Ws R → Ws R
  ask a w = record w { asked = w.asked ++ a ∷ [] }

  unfoldable pub interrupt : Ws R → Ws R
  interrupt w = if w.agent.has_exited || not w.ready then w else ask interrupts w

  abbrev pub submit_rest : Bool → Ws R → Ws R
  submit_rest expect_message w =
      ask submits (if expect_message then record w { waiters = wait w.waiters } else w)

  -- What `submit` does at once. With an interrupt the rest is the event `resumed`.
  unfoldable pub submit : Bool → Bool → Ws R → Ws R × Reply
  unfolding interrupt
  submit interrupt_if_busy expect_message w =
      if w.agent.has_exited
      then (w, throws_exited)
      else if not w.ready
      then (w, throws_not_ready)
      else if interrupt_if_busy && same_status w.agent.state.status busy
      then (interrupt w, returns)
      else (submit_rest expect_message w, returns)

  unfoldable pub approve : Ws R → Ws R × Reply
  approve w = if w.agent.has_exited then (w, throws_exited) else (ask approves w, returns)

  unfoldable pub reject : Ws R → Ws R × Reply
  reject w = if w.agent.has_exited then (w, throws_exited) else (ask rejects w, returns)

  unfoldable pub raw_write : String → Ws R → Ws R × Reply
  raw_write frame w =
      if w.agent.has_exited
      then (w, throws_exited)
      else if not (is_open w.socket)
      then (w, throws_not_open)
      else (record w { sent = w.sent ++ frame ∷ [] }, returns)

  -- `kill` up to its wait, and what is behind it.
  unfoldable pub kill : Ws R → Ws R
  kill w = if w.agent.has_exited then w else record w {
    socket = close_socket w.socket;
    signals = if w.server then w.signals + 1 else w.signals;
    kills = w.kills + 1;
  }

  unfoldable pub kill_rest : Ws R → Ws R
  unfolding on_connection_closed
  kill_rest w =
      if ltb 0 w.kills then on_connection_closed 0 (record w { kills = w.kills - 1 }) else w

pub data Event : Type 0 where
  spawned connects opened failed connect_timeout : Event
  message : String → Event
  close server_exit : ℕ → Event
  submitted : (interrupt_if_busy expect_message : Bool) → Event
  resumed : (expect_message : Bool) → Event
  waited interrupted approved rejected killed kill_elapsed : Event
  written : String → Event
  timeout : ℕ → Event

module _ {R : Type 0} (parse : String → State R → Parsed R) where
  -- `start` is the event `connects`, behind `spawned` where the driver has a server to spawn.
  unfoldable pub on_event : Event → Ws R → Ws R
  unfolding on_open on_message on_close on_server_exit interrupt submit approve reject raw_write
      kill kill_rest wait expire
  on_event spawned w = record w { server = true }
  on_event connects w = record w { socket = connecting; connection = unsettled }
  on_event opened w = on_open w
  on_event failed w = on_error w
  on_event connect_timeout w = on_connect_timeout w
  on_event (message text) w = on_message parse text w
  on_event (close code) w = on_close code w
  on_event (server_exit code) w = on_server_exit code w
  on_event (submitted i e) w = (submit i e w).0
  on_event (resumed e) w = submit_rest e w
  on_event waited w = record w { waiters = wait w.waiters }
  on_event interrupted w = interrupt w
  on_event approved w = (approve w).0
  on_event rejected w = (reject w).0
  on_event killed w = kill w
  on_event kill_elapsed w = kill_rest w
  on_event (written frame) w = (raw_write frame w).0
  on_event (timeout k) w = record w { waiters = expire k w.waiters }

  unfoldable pub on_events : List Event → Ws R → Ws R
  unfolding on_event
  on_events [] w = w
  on_events (e ∷ es) w = on_events es (on_event e w)
