-- ===== src/Transport/Sessions.antt =====
-- The clients of src/transport/client-session.ts and the set that src/transport/rpc.ts keeps of
-- them. The id "client-7" is the number 7. A session is one object: what changes it, changes it in
-- the set.
pub mod Follow
pub mod Quiet
mod Tests
use cordyceps.Common.{
  ltb, leb, ◌==◌, if◌then◌else◌, ltb→lt, lt→ltb, leb→le, ==_iff, Bool-cases, Option-cases,
  String-cases, str_eq_refl, str_eq-false, length, get_elem?, take, drop, keep, any, last?,
  length-append, take-append-drop, length-take, length-drop, All, All-append, All-map,
  drop-append_of_le, take-append_of_le, drop-length-append, take-length, append-ne-nil,
  slice-append_of_le, ℕ, zero, suc, ◌+◌, ◌-◌, ◌*◌, ◌/◌, ◌%◌, ◌≤◌, ◌<◌, min, max, String, ◌≡◌, refl,
  sym, ap, ◌∙◌, ◌≢◌, ◌↔◌, ◌⊎◌, inl, inr, Bool, true, false, not, ◌&&◌, ◌||◌, Option, none, some,
  List, [], ◌∷◌, ◌++◌, map-append, append-nil, append_assoc, arith, str_eq, eq_iff, map,
}
use cordyceps.Common.Json.{Json}
use cordyceps.Common.Map.{includes, add, without}
use cordyceps.Transport.Types.{Response}

pub data Frame : Type 0 where
  notification : String → Option Json → Frame
  response : Response → Frame

-- `sent` are the frames that went out over the socket.
pub record Session : Type 0 where
  pub id : ℕ
  pub is_open : Bool
  pub subscriptions : List String
  pub sent : List Frame

pub record Sessions : Type 0 where
  pub next_client_id : ℕ
  pub clients : List Session

abbrev pub default_subscriptions : List String
default_subscriptions =
    "agent.created" ∷ "agent.state" ∷ "agent.message" ∷ "agent.blocked" ∷ "agent.idle"
    ∷ "agent.exited" ∷ "plugin.ready" ∷ "daemon.stopping" ∷ []

abbrev pub no_clients : Sessions
no_clients = record { next_client_id = 1; clients = [] }

unfoldable pub new_session : ℕ → Session
new_session n = record { id = n; is_open = true; subscriptions = default_subscriptions; sent = [] }

-- `ClientSession.send`: nothing is sent over a socket that is not open.
unfoldable pub send_frame : Frame → Session → Session
send_frame f s = if s.is_open then record s { sent = s.sent ++ f ∷ [] } else s

abbrev pub add_all : List String → List String → List String
add_all [] subs = subs
add_all (e ∷ es) subs = add_all es (add e subs)

abbrev pub without_all : List String → List String → List String
without_all [] subs = subs
without_all (e ∷ es) subs = without_all es (without e subs)

unfoldable pub subscribe : List String → Session → Session
subscribe es s = record s { subscriptions = add_all es s.subscriptions }

unfoldable pub unsubscribe : List String → Session → Session
unsubscribe es s = record s { subscriptions = without_all es s.subscriptions }

unfoldable pub lose_socket : Session → Session
lose_socket s = record s { is_open = false }

-- The loop body of `broadcast`.
unfoldable pub notify : String → Option Json → Session → Session
unfolding send_frame
notify method params s =
    if includes method s.subscriptions then send_frame (notification method params) s else s

-- Changes the session object of an id.
unfoldable pub update : ℕ → (Session → Session) → List Session → List Session
update i f [] = []
update i f (s ∷ ss) = let rest = update i f ss in if s.id == i then f s ∷ rest else s ∷ rest

unfoldable pub remove : ℕ → List Session → List Session
remove i [] = []
remove i (s ∷ ss) = let rest = remove i ss in if s.id == i then rest else s ∷ rest

-- The loop of `send`: the first client of the id gets the frame.
unfoldable pub send_first : ℕ → Frame → List Session → List Session × Bool
unfolding send_frame
send_first i f [] = ([], false)
send_first i f (s ∷ ss) =
    let (rest, found) = send_first i f ss in
    if s.id == i then (send_frame f s ∷ ss, true) else (s ∷ rest, found)

-- What happens to the set of clients: the calls that the server and the methods make.
pub data Event : Type 0 where
  connect : Event
  lose disconnect : ℕ → Event
  subscribed unsubscribed : ℕ → List String → Event
  broadcast : String → Option Json → Event
  send : ℕ → String → Option Json → Event

unfoldable pub on_event : Event → Sessions → Sessions
on_event connect d = record {
  next_client_id = d.next_client_id + 1;
  clients = d.clients ++ new_session d.next_client_id ∷ [];
}
on_event (lose i) d = record d { clients = update i lose_socket d.clients }
on_event (disconnect i) d = record d { clients = remove i d.clients }
on_event (subscribed i es) d = record d { clients = update i (subscribe es) d.clients }
on_event (unsubscribed i es) d = record d { clients = update i (unsubscribe es) d.clients }
on_event (broadcast m p) d = record d { clients = map (notify m p) d.clients }
on_event (send i m p) d = record d { clients = (send_first i (notification m p) d.clients).0 }

unfoldable pub on_events : List Event → Sessions → Sessions
on_events [] d = d
on_events (e ∷ es) d = on_events es (on_event e d)

-- The session of an id.
abbrev pub client : ℕ → List Session → Option Session
client i [] = none
client i (s ∷ ss) = let rest = client i ss in if s.id == i then some s else rest
