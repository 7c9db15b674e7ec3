-- ===== src/Transport/Methods/Subscribe.antt =====
-- What a client gets that asks for events.
use cordyceps.Common.{
  ◌==◌, if◌then◌else◌, Bool-cases, sym, inl, ==_iff, ℕ, ◌<◌, String, ◌≡◌, refl, ap, ◌∙◌, inr, true,
  ◌||◌, Option, some, List, [], ◌∷◌, ◌++◌, arith, map,
}
use cordyceps.Common.Map.{Map, includes, add, includes-add}
use cordyceps.Common.Json.{Json, arr, Items, prop}
use cordyceps.Transport.Types.{is_object, is_request}
use cordyceps.Transport.Sessions.{
  Session, Sessions, notification, add_all, subscribe, notify, send_frame, client, on_event,
  on_events, subscribed, broadcast,
}
use cordyceps.Transport.Sessions.Follow.{client-update, client-on_events, follow_all}
use cordyceps.Transport.Rpc.{Handler, find_method, dispatch, call, method_text}
use cordyceps.Transport.Rpc.Answers.{is_request-or_notification}
use cordyceps.Transport.Methods.{
  Services, of_items, value_of, first_missing, require_params, notifications_subscribe,
}

-- The events that a request asks for.
abbrev pub asked : {W A D : Type 0} → Services W A D → Items → List String
asked s es = map s.name_of (of_items es)

require_events :
    (p : Json) (es : Items)
    → is_object p ≡ true
    → prop "events" p ≡ some (arr es)
    → require_params (some p) ("events" ∷ []) ≡ inr p
unfolding require_params first_missing
require_events p es o e = ground (arith, o, e)

value_events :
    (p : Json) (es : Items) → prop "events" p ≡ some (arr es) → value_of "events" p ≡ arr es
value_events p es e = ground (arith, e)

module _ {V A D : Type 0} (s : Services (Sessions × V) A D) where
  -- The method is the event `subscribed` of the set of clients.
  subscribe_lem :
      (p : Json) (es : Items) (i : ℕ) (w : Sessions × V)
      → is_object p ≡ true
      → prop "events" p ≡ some (arr es)
      → (notifications_subscribe s (some p) i w).0 ≡ (on_event (subscribed i (asked s es)) w.0, w.1)
  unfolding notifications_subscribe on_event
  subscribe_lem p es i w o e = rw (require_events p es o e, value_events p es e) refl

includes-add_all :
    (e : String) (es subs : List String)
    → includes e es || includes e subs ≡ true
    → includes e (add_all es subs) ≡ true
includes-add_all e [] subs h = ground (arith, h)
includes-add_all e (f ∷ es) subs h =
    includes-add_all e es (add f subs) (ground (arith, h, includes-add e f subs))

-- A broadcast reaches an open session that has the event.
notified :
    (e : String) (info : Option Json) (es : List String) (c : Session)
    → c.is_open ≡ true
    → includes e es ≡ true
    → notify e info (subscribe es c) ≡ record c {
      subscriptions = add_all es c.subscriptions;
      sent = c.sent ++ notification e info ∷ [];
    }
unfolding notify subscribe send_frame
notified e info es c o i =
    let has : includes e (add_all es c.subscriptions) ≡ true =
      includes-add_all e es c.subscriptions (ground (arith, i)) in
    rw (has, o) refl

dispatch_subscribe :
    {V A D : Type 0} (s : Services (Sessions × V) A D) (methods : Map (Handler (Sessions × V)))
    (raw p : Json) (es : Items) (i : ℕ) (w : Sessions × V)
    → is_request raw ≡ true
    → find_method (method_text raw) methods ≡ some (notifications_subscribe s)
    → prop "params" raw ≡ some p
    → is_object p ≡ true
    → prop "events" p ≡ some (arr es)
    → (dispatch methods i raw w).0 ≡ (on_event (subscribed i (asked s es)) w.0, w.1)
unfolding dispatch call
dispatch_subscribe s methods raw p es i w q f r o g =
    rw (is_request-or_notification raw q, q, f, r) (subscribe_lem s p es i w o g)

-- What it leaves in the set of clients, id by id.
client-subscribed :
    (i j : ℕ) (es : List String) (c : Session) (d : Sessions)
    → client i d.clients ≡ some c
    → client j (on_event (subscribed i es) d).clients ≡ (
        if i == j
        then some (record c { subscriptions = add_all es c.subscriptions })
        else client j d.clients)
unfolding on_event subscribe
client-subscribed i j es c d k =
    client-update j i (subscribe es) d.clients (λ s. refl) ∙ elim (Bool-cases (i == j)) [
      | inl e ↦ rw (e, sym ((==_iff i j).0 e), k) refl
      | inr e ↦ rw e refl
    ]

next_id-subscribed :
    (i : ℕ) (es : List String) (d : Sessions)
    → (on_event (subscribed i es) d).next_client_id ≡ d.next_client_id
unfolding on_event
next_id-subscribed i es d = refl

-- A client that was handed its id and whose socket is open asks, by a request that reaches the method
-- notifications.subscribe, for events: of every event among them that is broadcast next it gets the
-- notification, behind all that it was sent before; the request changes nothing else of the state than
-- the client's subscriptions: the entry of every other id, the next id and the rest stay.
pub subscribe_notified :
    {V A D : Type 0} (s : Services (Sessions × V) A D) (methods : Map (Handler (Sessions × V)))
    (raw p : Json) (es : Items) (i : ℕ) (c : Session) (w : Sessions × V) (e : String)
    (info : Option Json) (j : ℕ)
    → is_request raw ≡ true
    → find_method (method_text raw) methods ≡ some (notifications_subscribe s)
    → prop "params" raw ≡ some p
    → is_object p ≡ true
    → prop "events" p ≡ some (arr es)
    → i < w.0.next_client_id
    → client i w.0.clients ≡ some c
    → c.is_open ≡ true
    → includes e (asked s es) ≡ true
    → (client i (on_event (broadcast e info) (dispatch methods i raw w).0.0).clients
        ≡ some (record c {
          subscriptions = add_all (asked s es) c.subscriptions;
          sent = c.sent ++ notification e info ∷ [];
        }))
      × (client j (dispatch methods i raw w).0.0.clients ≡ (
          if i == j
          then some (record c { subscriptions = add_all (asked s es) c.subscriptions })
          else client j w.0.clients))
      × ((dispatch methods i raw w).0.0.next_client_id ≡ w.0.next_client_id)
      × ((dispatch methods i raw w).0.1 ≡ w.1)
unfolding on_events
subscribe_notified s methods raw p es i c w e info j q f r o g l k t n =
    let after = dispatch_subscribe s methods raw p es i w q f r o g in
    let events = subscribed i (asked s es) ∷ broadcast e info ∷ [] in
    (
      ap (λ x. client i (on_event (broadcast e info) x.0).clients) after
          ∙ client-on_events i events w.0 l
          ∙ ap (follow_all i events) k
          ∙ rw ((==_iff i i).1 refl, notified e info (asked s es) c t n) refl,
      ap (λ x. client j x.0.clients) after ∙ client-subscribed i j (asked s es) c w.0 k,
      ap (λ x. x.0.next_client_id) after ∙ next_id-subscribed i (asked s es) w.0,
      ap (λ x. x.1) after,
    )
