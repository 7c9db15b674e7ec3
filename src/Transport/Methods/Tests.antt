-- ===== src/Transport/Methods/Tests.antt =====
-- The core methods over a daemon with two agents, one of which has exited.
use cordyceps.Common.{
  ltb, leb, ◌==◌, if◌then◌else◌, ltb→lt, lt→ltb, leb→le, ==_iff, Bool-cases, Option-cases,
  String-cases, str_eq_refl, str_eq-false, by_test, length, get_elem?, take, drop, keep, any, last?,
  length-append, take-append-drop, length-take, length-drop, All, All-append, All-map,
  drop-append_of_le, take-append_of_le, drop-length-append, take-length, append-ne-nil,
  slice-append_of_le, ℕ, zero, suc, ◌+◌, ◌-◌, ◌*◌, ◌/◌, ◌%◌, ◌≤◌, ◌<◌, min, max, String, ◌≡◌, refl,
  sym, ap, ◌∙◌, ◌≢◌, ◌↔◌, inl, inr, Bool, false, not, ◌&&◌, ◌||◌, Option, none, some, List, [], ◌∷◌,
  ◌++◌, map-append, append-nil, append_assoc, arith, str_eq, eq_iff, map,
}
use cordyceps.Common.Map.{Map, keys}
use cordyceps.Common.Text.{Text, text}
use cordyceps.Common.Json.{Json, null, num, str, arr, obj, nil, cons, end, field}
use cordyceps.Transport.Sessions.{
  Sessions, notification, add_all, new_session, client, on_event, broadcast,
}
use cordyceps.Transport.Rpc.{Outcome, returns, throws, find_method, dispatch}
use cordyceps.Transport.Methods.{Services, agents_transcript, core_methods, register_each}
use cordyceps.Transport.Methods.Subscribe.{asked, subscribe_notified}

abbrev no_text : Text
no_text = []

abbrev find_agent : Json → Sessions × ℕ → Option Bool
find_agent (str t) v = if length t == 4 then some false else none
find_agent _ v = none

abbrev services : Services (Sessions × ℕ) Bool ℕ
services = record {
  find = find_agent;
  has_exited = λ a. a;
  info = λ a. null;
  state = λ a. null;
  transcript = λ a. num 1 ∷ num 2 ∷ num 3 ∷ [];
  list_agents = λ v. false ∷ [];
  spawn = λ d p v. (v, inr false);
  kill = λ id v. (v, none);
  submit = λ id p v. (v, inr null);
  act = λ a id v. (v, none);
  raw_write = λ id d v. (v, none);
  resolve = λ id v. none;
  probe = λ d v. (v, null);
  list_drivers = λ v. 0 ∷ [];
  describe = λ d j. j;
  bus_get = λ k v. none;
  bus_prefix = λ k v. end;
  instances = λ v. [];
  self_pid = 1;
  show = λ j. no_text;
  name_of = λ j. "agent.output";
}

-- Every core method has a name of its own: none is refused.
register_core_methods :
    {V A D : Type 0} (s : Services (Sessions × V) A D)
    → register_each (core_methods s) [] ≡ some (core_methods s)
unfolding register_each cordyceps.Common.Map.has cordyceps.Common.Map.put
register_core_methods s = refl

abbrev two_clients : Sessions
two_clients = record { next_client_id = 3; clients = new_session 1 ∷ new_session 2 ∷ [] }

-- `agents.transcript` without parameters is an internal error, not one of the parameters.
transcript_without_params :
    (agents_transcript services none (two_clients, 0)).1
    ≡ throws (text "Cannot read properties of undefined (reading 'id')")
transcript_without_params = refl

abbrev events_param : Json
events_param = obj (field "events" (arr (cons (str (text "agent.output")) nil)) end)

abbrev request : Json
request = obj (
    field "jsonrpc" (str (text "2.0")) (
      field "method" (str (text "notifications.subscribe"))
        (field "params" events_param (field "id" (num 7) end))))

-- An interrupt of the live agent, whose event reaches the clients.
abbrev interrupt_params : Json
interrupt_params = obj (field "id" (str (text "a-01")) end)

abbrev interrupted : Sessions × ℕ → Sessions × ℕ
interrupted w = (on_event (broadcast "agent.interrupted" none) w.0, w.1 + 1)

abbrev run_interrupt : Json → Sessions × ℕ → (Sessions × ℕ) × Outcome
run_interrupt p w = (interrupted w, returns none)

subscribe_notified_example :
    (client 1
        (on_event
          (broadcast "agent.output" none)
          (dispatch (core_methods services) 1 request (two_clients, 0)).0.0).clients
      ≡ some (record (new_session 1) {
        subscriptions =
            add_all
              (asked services (cons (str (text "agent.output")) nil))
              (new_session 1).subscriptions;
        sent = notification "agent.output" none ∷ [];
      }))
    × (client 2 (dispatch (core_methods services) 1 request (two_clients, 0)).0.0.clients
        ≡ some (new_session 2))
    × ((dispatch (core_methods services) 1 request (two_clients, 0)).0.0.next_client_id ≡ 3)
    × ((dispatch (core_methods services) 1 request (two_clients, 0)).0.1 ≡ 0)
unfolding find_method cordyceps.Transport.Types.is_request new_session
subscribe_notified_example =
    subscribe_notified services (core_methods services) request events_param
      (cons (str (text "agent.output")) nil) 1 (new_session 1) (two_clients, 0) "agent.output" none
      2 refl refl refl refl refl (ground arith) refl refl refl
