-- ===== src/Transport/Sessions/Tests.antt =====
-- Two clients at concrete events.
use cordyceps.Common.{any, ◌≡◌, refl, false, none, List, [], ◌∷◌, arith, map}
use cordyceps.Transport.Sessions.{
  notification, Session, Sessions, no_clients, Event, connect, subscribed, broadcast, on_event,
  on_events, client, new_session, update, subscribe, notify, send_frame,
}
use cordyceps.Transport.Sessions.Follow.{follow_all, client-on_events}
use cordyceps.Transport.Sessions.Quiet.{opt_in, is_about}

abbrev two : Sessions
two = on_events (connect ∷ connect ∷ []) no_clients

abbrev events : List Event
events =
    subscribed 2 ("agent.output" ∷ [])
    ∷ broadcast "agent.output" none
    ∷ broadcast "agent.idle" none
    ∷ []

outputs :
    map (λ (s : Session). s.sent) (on_events events two).clients
    ≡ (notification "agent.idle" none ∷ [])
      ∷ (notification "agent.output" none ∷ notification "agent.idle" none ∷ [])
      ∷ []
unfolding on_events on_event new_session update subscribe notify send_frame
outputs = refl

client-on_events_example :
    client 1 (on_events events two).clients ≡ follow_all 1 events (client 1 two.clients)
unfolding on_events on_event
client-on_events_example = client-on_events 1 events two (omega arith)

abbrev first_after : Session
first_after = record (new_session 1) { sent = notification "agent.idle" none ∷ [] }

opt_in_example : any (is_about "agent.output") first_after.sent ≡ false
unfolding on_events on_event new_session update subscribe notify send_frame
opt_in_example =
    opt_in 1 "agent.output" events two (new_session 1) first_after (omega arith) refl refl refl refl
      refl
