-- ===== src/Transport/Methods.antt =====
-- The core method handlers of src/transport/methods.ts, over any agents, drivers, bus and instances:
-- `Services` has what the handlers call of them, `V` is the state that these change and `A` an agent.
-- `daemon.health`, which reads the clock and the process, is left out.
pub mod Subscribe
pub mod Agents
mod Tests
use cordyceps.Common.{
  ltb, leb, ◌==◌, if◌then◌else◌, ltb→lt, lt→ltb, leb→le, ==_iff, Bool-cases, Option-cases,
  String-cases, str_eq_refl, str_eq-false, by_test, length, get_elem?, take, drop, keep, any, last?,
  length-append, take-append-drop, length-take, length-drop, All, All-append, All-map,
  drop-append_of_le, take-append_of_le, drop-length-append, take-length, append-ne-nil,
  slice-append_of_le, ℕ, zero, suc, ◌+◌, ◌-◌, ◌*◌, ◌/◌, ◌%◌, ◌≤◌, ◌<◌, min, max, String, ◌≡◌, refl,
  sym, ap, ◌∙◌, ◌≢◌, ◌↔◌, ◌⊎◌, inl, inr, Bool, true, false, not, ◌&&◌, ◌||◌, Option, none, some,
  List, [], ◌∷◌, ◌++◌, map-append, append-nil, append_assoc, arith, str_eq, eq_iff, map,
}
use cordyceps.Common.Map.{Map}
use cordyceps.Common.Int.{ℤ, minus}
use cordyceps.Common.Text.{Text, text}
use cordyceps.Common.Json.{
  Json, null, bool, num, str, arr, obj, Items, nil, cons, Fields, end, field, prop, truthy, or_else,
}
use cordyceps.Transport.Types.{invalid_params, is_object}
use cordyceps.Transport.Sessions.{Session, Sessions, subscribe, unsubscribe, update, client}
use cordyceps.Transport.Rpc.{Outcome, returns, method_error, throws, Handler, register}

abbrev pub agent_not_found : ℤ
agent_not_found = minus 32001

abbrev pub agent_exited : ℤ
agent_exited = minus 32003

abbrev pub driver_unavailable : ℤ
driver_unavailable = minus 32005

-- `interrupt`, `approve` and `reject` of a runtime.
pub data Act : Type 0 where
  interrupts approves rejects : Act

-- An entry of the list of daemons; the token is in the file that it is read from.
pub record Instance : Type 0 where
  pub pid : ℕ
  pub url : Text
  pub port : ℕ
  pub started_at : Text
  pub version : Text
  pub token : Text

-- The manager, the registry and the bus. Ids come as JSON values, as the manager's map gets them;
-- `none` is a call that returns and a text the message of what it throws. `show` is the text of a value
-- in a template and `name_of` the native text of a value in a list of events.
pub record Services (V A D : Type 0) : Type 0 where
  pub find : Json → V → Option A
  pub has_exited : A → Bool
  pub info : A → Json
  pub state : A → Json
  pub transcript : A → List Json
  pub list_agents : V → List A
  pub spawn : Json → Json → V → V × (Text ⊎ A)
  pub kill : Json → V → V × Option Text
  pub submit : Json → Json → V → V × (Text ⊎ Json)
  pub act : Act → Json → V → V × Option Text
  pub raw_write : Json → Json → V → V × Option Text
  pub resolve : Json → V → Option D
  pub probe : D → V → V × Json
  pub list_drivers : V → List D
  pub describe : D → Json → Json
  pub bus_get : Json → V → Option Json
  pub bus_prefix : Json → V → Fields
  pub instances : V → List Instance
  pub self_pid : ℕ
  pub show : Json → Text
  pub name_of : Json → String

abbrev pub ok_result : Outcome
ok_result = returns (some (obj (field "ok" (bool true) end)))

abbrev pub fail : ℤ → Text → Outcome
fail code message = method_error code message none

abbrev pub list_fields : List String → Text
list_fields [] = []
list_fields (f ∷ []) = text f
list_fields (f ∷ g ∷ fs) = text f ++ text ", " ++ list_fields (g ∷ fs)

-- `p.f`, where a missing field was ruled out or is passed on as it is.
abbrev pub value_of : String → Json → Json
value_of f p = elim (prop f p) [ none ↦ null | some v ↦ v ]

unfoldable pub first_missing : Json → List String → Option String
first_missing p [] = none
first_missing p (f ∷ fs) =
    let rest = first_missing p fs in elim (prop f p) [ none ↦ some f | some v ↦ rest ]

abbrev pub check_fields : Json → Option String → Outcome ⊎ Json
check_fields p none = inr p
check_fields p (some f) = inl (fail invalid_params (text "Missing required param: " ++ text f))

abbrev pub missing_params : List String → Outcome
missing_params fields =
    fail invalid_params (text "Missing params; expected fields: " ++ list_fields fields)

unfoldable pub require_params : Option Json → List String → Outcome ⊎ Json
unfolding first_missing
require_params none fields = inl (missing_params fields)
require_params (some p) fields =
    if is_object p then check_fields p (first_missing p fields) else inl (missing_params fields)

abbrev pub to_items : List Json → Items
to_items [] = nil
to_items (v ∷ vs) = cons v (to_items vs)

abbrev pub of_items : Items → List Json
of_items nil = []
of_items (cons v vs) = v ∷ of_items vs

-- `transcript.slice(-last)`; a `last` that is not a number is taken as none.
abbrev pub last_messages : Option Json → List Json → List Json
last_messages (some (num (suc n))) l = drop (length l - (n + 1)) l
last_messages _ l = l

abbrev pub describe_instance : ℕ → Instance → Json
describe_instance self r = obj (
    field "pid" (num r.pid) (
      field "url" (str r.url) (
        field "port" (num r.port) (
          field "startedAt" (str r.started_at)
            (field "version" (str r.version) (field "self" (bool (r.pid == self)) end))))))

module _ {V A D : Type 0} (s : Services V A D) where
  abbrev pub not_found : Json → Outcome
  not_found id = fail agent_not_found (text "Agent not found: " ++ s.show id)

  -- `getAgent`
  abbrev pub live_agent : Json → Option A → Outcome ⊎ A
  live_agent id none = inl (not_found id)
  live_agent id (some a) =
      if s.has_exited a
      then inl (fail agent_exited (text "Agent has exited: " ++ s.show id))
      else inr a

  abbrev pub get_agent : Json → V → Outcome ⊎ A
  get_agent id v = live_agent id (s.find id v)

  abbrev pub done : V × Option Text → V × Outcome
  done (v, none) = (v, ok_result)
  done (v, some e) = (v, throws e)

  abbrev pub result_of : V × (Text ⊎ Json) → V × Outcome
  result_of (v, inl e) = (v, throws e)
  result_of (v, inr r) = (v, returns (some r))

  abbrev pub spawned : V × (Text ⊎ A) → V × Outcome
  spawned (v, inl e) = (v, throws e)
  spawned (v, inr a) = (v, returns (some (s.info a)))

  -- The parameters are there; then what the handler does with them.
  abbrev pub with_params : Outcome ⊎ Json → (Json → V → V × Outcome) → V → V × Outcome
  with_params (inl o) f v = (v, o)
  with_params (inr p) f v = f p v

  abbrev pub with_agent : Outcome ⊎ A → (V → V × Outcome) → V → V × Outcome
  with_agent (inl o) f v = (v, o)
  with_agent (inr a) f v = f v

  -- A handler that wants parameters and an agent that is alive.
  abbrev pub on_agent : List String → (Json → V → V × Outcome) → Option Json → V → V × Outcome
  on_agent fields f params v =
      with_params (require_params params fields)
        (λ p v. with_agent (get_agent (value_of "id" p) v) (f p) v) v

  abbrev pub agents_list : Option Json → V → V × Outcome
  agents_list params v = (v, returns (some (arr (to_items (map s.info (s.list_agents v))))))

  abbrev pub agents_spawn : Option Json → V → V × Outcome
  agents_spawn params v =
      with_params (require_params params ("driverId" ∷ []))
        (λ p v. spawned (s.spawn (value_of "driverId" p) p v)) v

  -- `get`, `state` and `transcript` read of an agent that may have exited.
  abbrev pub read_agent : (A → Json) → Json → Option A → Outcome
  read_agent f id none = not_found id
  read_agent f id (some a) = returns (some (f a))

  abbrev pub agents_get : Option Json → V → V × Outcome
  agents_get params v =
      with_params (require_params params ("id" ∷ []))
        (λ p v. (v, read_agent s.info (value_of "id" p) (s.find (value_of "id" p) v))) v

  abbrev pub agents_state : Option Json → V → V × Outcome
  agents_state params v =
      with_params (require_params params ("id" ∷ []))
        (λ p v. (v, read_agent s.state (value_of "id" p) (s.find (value_of "id" p) v))) v

  -- `p.id` of parameters that are missing or `null` throws.
  abbrev pub agents_transcript : Option Json → V → V × Outcome
  agents_transcript none v = (v, throws (text "Cannot read properties of undefined (reading 'id')"))
  agents_transcript (some null) v =
      (v, throws (text "Cannot read properties of null (reading 'id')"))
  agents_transcript (some p) v =
      let found =
        read_agent (λ a. arr (to_items (last_messages (prop "last" p) (s.transcript a))))
          (value_of "id" p) (s.find (value_of "id" p) v) in
      (v, if truthy (prop "id" p) then found else fail invalid_params (text "Missing param: id"))

  abbrev pub kill_found : Json → Option A → V → V × Outcome
  kill_found id none v = (v, not_found id)
  kill_found id (some a) v = done (s.kill id v)

  abbrev pub agents_kill : Option Json → V → V × Outcome
  agents_kill params v =
      with_params (require_params params ("id" ∷ []))
        (λ p v. kill_found (value_of "id" p) (s.find (value_of "id" p) v) v) v

  abbrev pub agents_submit : Option Json → V → V × Outcome
  agents_submit =
      on_agent ("id" ∷ "prompt" ∷ []) (λ p v. result_of (s.submit (value_of "id" p) p v))

  abbrev pub agents_act : Act → Option Json → V → V × Outcome
  agents_act a = on_agent ("id" ∷ []) (λ p v. done (s.act a (value_of "id" p) v))

  abbrev pub agents_raw : Option Json → V → V × Outcome
  agents_raw =
      on_agent ("id" ∷ "data" ∷ [])
        (λ p v. done (s.raw_write (value_of "id" p) (value_of "data" p) v))

  -- `probeAll`, one driver after the other, and the list.
  abbrev pub probe_each : List D → V → V × List Json
  probe_each [] v = (v, [])
  probe_each (d ∷ ds) v =
      let (v', j) = s.probe d v in let (v'', js) = probe_each ds v' in (v'', s.describe d j ∷ js)

  abbrev pub drivers_list : Option Json → V → V × Outcome
  drivers_list params v =
      let (v', js) = probe_each (s.list_drivers v) v in (v', returns (some (arr (to_items js))))

  abbrev pub probe_found : Json → Option D → V → V × Outcome
  probe_found id none v = (v, fail driver_unavailable (text "Driver not found: " ++ s.show id))
  probe_found id (some d) v = let (v', j) = s.probe d v in (v', returns (some (s.describe d j)))

  abbrev pub drivers_get : Option Json → V → V × Outcome
  drivers_get params v =
      with_params (require_params params ("id" ∷ []))
        (λ p v. probe_found (value_of "id" p) (s.resolve (value_of "id" p) v) v) v

  abbrev pub bus_get_method : Option Json → V → V × Outcome
  bus_get_method params v =
      with_params (require_params params ("key" ∷ []))
        (λ p v. (v, returns (some (or_else (s.bus_get (value_of "key" p) v) null)))) v

  abbrev pub bus_prefix_method : Option Json → V → V × Outcome
  bus_prefix_method params v =
      with_params (require_params params ("prefix" ∷ []))
        (λ p v. (v, returns (some (obj (s.bus_prefix (value_of "prefix" p) v))))) v

  abbrev pub daemons_list : Option Json → V → V × Outcome
  daemons_list params v =
      (v, returns (some (arr (to_items (map (describe_instance s.self_pid) (s.instances v))))))

-- A handler that does not look at the client that asks.
abbrev pub without_client : {W : Type 0} → (Option Json → W → W × Outcome) → Handler W
without_client f params i w = f params w

-- The methods over a daemon whose state has the set of clients: what the services do can reach these,
-- as the events of a handler are broadcast.
module _ {V A D : Type 0} (s : Services (Sessions × V) A D) where
  abbrev pub name_list : List String → List Json
  name_list [] = []
  name_list (e ∷ es) = str (text e) ∷ name_list es

  -- The session of the handler's context is that of the client.
  abbrev pub subscriptions_of : Option Session → List String
  subscriptions_of none = []
  subscriptions_of (some c) = c.subscriptions

  abbrev pub subscribed_result : ℕ → Sessions → Outcome
  subscribed_result i d = returns (
      some (
        obj (
          field "ok" (bool true) (
            field "subscribed" (arr (to_items (name_list (subscriptions_of (client i d.clients)))))
              end))))

  -- `session.subscribe(p.events)` or `session.unsubscribe(p.events)`
  abbrev pub change_events : (List String → Session → Session) → Json → Handler (Sessions × V)
  change_events change (arr es) params i w =
      let d = record w.0 {
        clients = update i (change (map s.name_of (of_items es))) w.0.clients;
      } in
      ((d, w.1), subscribed_result i d)
  change_events change _ params i w = (w, fail invalid_params (text "events must be an array"))

  abbrev pub with_events :
      (List String → Session → Session) → Outcome ⊎ Json → Handler (Sessions × V)
  with_events change (inl o) params i w = (w, o)
  with_events change (inr p) params i w = change_events change (value_of "events" p) params i w

  unfoldable pub notifications_subscribe : Handler (Sessions × V)
  unfolding require_params subscribe update
  notifications_subscribe params i w =
      with_events subscribe (require_params params ("events" ∷ [])) params i w

  unfoldable pub notifications_unsubscribe : Handler (Sessions × V)
  unfolding require_params unsubscribe update
  notifications_unsubscribe params i w =
      with_events unsubscribe (require_params params ("events" ∷ [])) params i w

  -- `registerCoreMethods`: the names in the order in which they are registered.
  abbrev pub core_methods : List (String × Handler (Sessions × V))
  core_methods =
      ("agents.list", without_client (agents_list s))
      ∷ ("agents.spawn", without_client (agents_spawn s))
      ∷ ("agents.get", without_client (agents_get s))
      ∷ ("agents.kill", without_client (agents_kill s))
      ∷ ("agents.state", without_client (agents_state s))
      ∷ ("agents.transcript", without_client (agents_transcript s))
      ∷ ("agents.submit", without_client (agents_submit s))
      ∷ ("agents.interrupt", without_client (agents_act s interrupts))
      ∷ ("agents.approve", without_client (agents_act s approves))
      ∷ ("agents.reject", without_client (agents_act s rejects))
      ∷ ("agents.raw", without_client (agents_raw s))
      ∷ ("drivers.list", without_client (drivers_list s))
      ∷ ("drivers.get", without_client (drivers_get s))
      ∷ ("bus.get", without_client (bus_get_method s))
      ∷ ("bus.getByPrefix", without_client (bus_prefix_method s))
      ∷ ("daemons.list", without_client (daemons_list s))
      ∷ ("notifications.subscribe", notifications_subscribe)
      ∷ ("notifications.unsubscribe", notifications_unsubscribe)
      ∷ []

-- Registers one after the other; `none` is the error of a name that is taken.
unfoldable pub register_each :
    {W : Type 0} → List (String × Handler W) → Map (Handler W) → Option (Map (Handler W))
unfolding register
register_each [] m = some m
register_each ((n, h) ∷ hs) m = elim (register n h m) [
  | none ↦ none
  | some m' ↦ register_each hs m'
]
