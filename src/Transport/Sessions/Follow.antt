-- ===== src/Transport/Sessions/Follow.antt =====
-- What one client sees, apart from all the others.
use cordyceps.Common.{
  ◌==◌, if◌then◌else◌, Bool-cases, ℕ, ◌<◌, String, ◌≡◌, refl, ap, ◌∙◌, ◌≢◌, inl, inr, Option, none,
  some, List, [], ◌∷◌, ◌++◌, arith, map,
}
use cordyceps.Common.Json.{Json}
use cordyceps.Common.Map.{includes}
use cordyceps.Transport.Sessions.{
  Frame, notification, Session, Sessions, new_session, send_frame, subscribe, unsubscribe,
  lose_socket, notify, update, remove, send_first, Event, connect, lose, disconnect, subscribed,
  unsubscribed, broadcast, send, on_event, on_events, client,
}

abbrev pub on_some : (Session → Session) → Option Session → Option Session
on_some f none = none
on_some f (some s) = some (f s)

abbrev pub for_me : ℕ → ℕ → (Session → Session) → Option Session → Option Session
for_me i j f o = if j == i then on_some f o else o

-- One client on its own: the events that name another one are skipped.
abbrev pub follow : ℕ → Event → Option Session → Option Session
follow i connect o = o
follow i (lose j) o = for_me i j lose_socket o
follow i (disconnect j) o = if j == i then none else o
follow i (subscribed j es) o = for_me i j (subscribe es) o
follow i (unsubscribed j es) o = for_me i j (unsubscribe es) o
follow i (broadcast m p) o = on_some (notify m p) o
follow i (send j m p) o = for_me i j (send_frame (notification m p)) o

abbrev pub follow_all : ℕ → List Event → Option Session → Option Session
follow_all i [] o = o
follow_all i (e ∷ es) o = follow_all i es (follow i e o)

abbrev pub KeepsId : (Session → Session) → Type 0
KeepsId f = (s : Session) → (f s).id ≡ s.id

pub client-update :
    (i j : ℕ) (f : Session → Session) (ss : List Session)
    → KeepsId f
    → client i (update j f ss) ≡ for_me i j f (client i ss)
unfolding update
client-update i j f [] k = ground arith
client-update i j f (s ∷ ss) k = ground (arith, k s, client-update i j f ss k)

client-map :
    (i : ℕ) (f : Session → Session) (ss : List Session)
    → KeepsId f
    → client i (map f ss) ≡ on_some f (client i ss)
client-map i f [] k = refl
client-map i f (s ∷ ss) k = ground (arith, k s, client-map i f ss k)

client-remove :
    (i j : ℕ) (ss : List Session) → client i (remove j ss) ≡ (if j == i then none else client i ss)
unfolding remove
client-remove i j [] = ground arith
client-remove i j (s ∷ ss) = ground (arith, client-remove i j ss)

send_frame-KeepsId : (f : Frame) → KeepsId (send_frame f)
unfolding send_frame
send_frame-KeepsId f s = elim (Bool-cases s.is_open) [ inl e ↦ rw e refl | inr e ↦ rw e refl ]

notify-KeepsId : (m : String) (p : Option Json) → KeepsId (notify m p)
unfolding notify
notify-KeepsId m p s = elim (Bool-cases (includes m s.subscriptions)) [
  | inl e ↦ rw e (send_frame-KeepsId (notification m p) s)
  | inr e ↦ rw e refl
]

client-send_first :
    (i j : ℕ) (f : Frame) (ss : List Session)
    → client i ((send_first j f ss).0) ≡ for_me i j (send_frame f) (client i ss)
unfolding send_first
client-send_first i j f [] = ground arith
client-send_first i j f (s ∷ ss) =
    ground (arith, send_frame-KeepsId f s, client-send_first i j f ss)

client-append_other :
    (i : ℕ) (ss : List Session) (s : Session) → s.id ≢ i → client i (ss ++ s ∷ []) ≡ client i ss
client-append_other i [] s h = ground arith
client-append_other i (t ∷ ss) s h = ground (arith, client-append_other i ss s h)

client-on_event :
    (i : ℕ) (e : Event) (d : Sessions)
    → i < d.next_client_id
    → (client i (on_event e d).clients ≡ follow i e (client i d.clients))
      × (i < (on_event e d).next_client_id)
unfolding on_event subscribe unsubscribe lose_socket new_session
client-on_event i connect d h = (
  client-append_other i d.clients (new_session d.next_client_id) (λ e. omega (arith, e, h)),
  omega (arith, h),
)
client-on_event i (lose j) d h = (client-update i j lose_socket d.clients (λ s. refl), h)
client-on_event i (disconnect j) d h = (client-remove i j d.clients, h)
client-on_event i (subscribed j es) d h =
    (client-update i j (subscribe es) d.clients (λ s. refl), h)
client-on_event i (unsubscribed j es) d h =
    (client-update i j (unsubscribe es) d.clients (λ s. refl), h)
client-on_event i (broadcast m p) d h =
    (client-map i (notify m p) d.clients (notify-KeepsId m p), h)
client-on_event i (send j m p) d h = (client-send_first i j (notification m p) d.clients, h)

-- For an id that was handed out, whatever happens to the set of clients, the session of the id is
-- what it would be if all events that name other clients had not happened: no other client
-- changes its subscriptions or gets what is sent to it.
pub client-on_events :
    (i : ℕ) (es : List Event) (d : Sessions)
    → i < d.next_client_id
    → client i (on_events es d).clients ≡ follow_all i es (client i d.clients)
unfolding on_events
client-on_events i [] d h = refl
client-on_events i (e ∷ es) d h =
    let (same, lt) = client-on_event i e d h in
    client-on_events i es (on_event e d) lt ∙ ap (follow_all i es) same
