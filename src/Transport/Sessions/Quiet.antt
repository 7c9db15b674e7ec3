-- ===== src/Transport/Sessions/Quiet.antt =====
-- Events are opt-in: a client gets no notification that it neither has from the start nor asked for.
use mathlib.Core.Path.{subst}
use cordyceps.Common.{
  ◌==◌, Bool-cases, String-cases, str_eq-false, any, ℕ, ◌<◌, String, ◌≡◌, refl, sym, ap, ◌∙◌, inl,
  inr, Bool, true, false, ◌&&◌, Option, none, some, List, [], ◌∷◌, ◌++◌, arith, str_eq,
}
use cordyceps.Common.Json.{Json}
use cordyceps.Common.Map.{includes, without}
use cordyceps.Transport.Sessions.{
  Frame, notification, response, Session, Sessions, send_frame, add_all, without_all, subscribe,
  unsubscribe, lose_socket, notify, Event, connect, lose, disconnect, subscribed, unsubscribed,
  broadcast, send, on_events, client,
}
use cordyceps.Transport.Sessions.Follow.{follow, follow_all, client-on_events}

-- The frame is a notification of this event.
abbrev pub is_about : String → Frame → Bool
is_about e (notification m p) = str_eq m e
is_about e (response r) = false

-- The client subscribes to this event, or is sent it directly.
abbrev pub asks : ℕ → String → Event → Bool
asks i e (subscribed j es) = j == i && includes e es
asks i e (send j m p) = j == i && str_eq m e
asks i e _ = false

abbrev Quiet : String → Session → Type 0
Quiet e s = (includes e s.subscriptions ≡ false) × (any (is_about e) s.sent ≡ false)

abbrev QuietOption : String → Option Session → Type 0
QuietOption e none = Unit
QuietOption e (some s) = Quiet e s

includes-append_false :
    (e f : String) (l : List String)
    → includes e l ≡ false
    → str_eq f e ≡ false
    → includes e (l ++ f ∷ []) ≡ false
includes-append_false e f [] h g = ground (arith, g)
includes-append_false e f (j ∷ l) h g = ground (arith, h, includes-append_false e f l)

includes-add_all :
    (e : String) (es subs : List String)
    → includes e es ≡ false
    → includes e subs ≡ false
    → includes e (add_all es subs) ≡ false
includes-add_all e [] subs h g = g
includes-add_all e (f ∷ es) subs h g = elim (Bool-cases (includes f subs)) [
  | inl i ↦ rw i (includes-add_all e es subs (ground (arith, h)) g)
  | inr i ↦ rw i (
      includes-add_all e es (subs ++ f ∷ []) (ground (arith, h))
        (includes-append_false e f subs g (ground (arith, h))))
]

includes-without :
    (e f : String) (subs : List String)
    → includes e subs ≡ false
    → includes e (without f subs) ≡ false
includes-without e f [] h = refl
includes-without e f (j ∷ subs) h = ground (arith, h, includes-without e f subs)

includes-without_all :
    (e : String) (es subs : List String)
    → includes e subs ≡ false
    → includes e (without_all es subs) ≡ false
includes-without_all e [] subs h = h
includes-without_all e (f ∷ es) subs h =
    includes-without_all e es (without f subs) (includes-without e f subs h)

any-append_false :
    (p : Frame → Bool) (fs : List Frame) (f : Frame)
    → any p fs ≡ false
    → p f ≡ false
    → any p (fs ++ f ∷ []) ≡ false
any-append_false p [] f h g = ground (arith, g)
any-append_false p (x ∷ fs) f h g = ground (arith, h, any-append_false p fs f)

send_frame-Quiet :
    (e : String) (f : Frame) (s : Session)
    → is_about e f ≡ false
    → Quiet e s
    → Quiet e (send_frame f s)
unfolding send_frame
send_frame-Quiet e f s a q = elim (Bool-cases s.is_open) [
  | inl o ↦ rw o (q.0, any-append_false (is_about e) s.sent f q.1 a)
  | inr o ↦ rw o q
]

includes-str_eq :
    (e m : String) (l : List String)
    → includes e l ≡ false
    → includes m l ≡ true
    → str_eq m e ≡ false
includes-str_eq e m l h g = elim (String-cases m e) [
  | inl p ↦ absurd (ground (arith, ap (λ x. includes x l) p, h, g))
  | inr p ↦ str_eq-false m e p
]

notify-Quiet : (e m : String) (p : Option Json) (s : Session) → Quiet e s → Quiet e (notify m p s)
unfolding notify
notify-Quiet e m p s q = elim (Bool-cases (includes m s.subscriptions)) [
  | inl i ↦
      rw i (send_frame-Quiet e (notification m p) s (includes-str_eq e m s.subscriptions q.0 i) q)
  | inr i ↦ rw i q
]

follow-Quiet :
    (i : ℕ) (e : String) (ev : Event) (o : Option Session)
    → asks i e ev ≡ false
    → QuietOption e o
    → QuietOption e (follow i ev o)
unfolding subscribe unsubscribe lose_socket
follow-Quiet i e connect o a q = q
follow-Quiet i e (lose j) none a q = ground arith
follow-Quiet i e (lose j) (some s) a q = ground (arith, q)
follow-Quiet i e (disconnect j) o a q = ground (arith, q)
follow-Quiet i e (subscribed j es) none a q = ground arith
follow-Quiet i e (subscribed j es) (some s) a q = elim (Bool-cases (j == i)) [
  | inl h ↦ rw h (includes-add_all e es s.subscriptions (ground (arith, h, a)) q.0, q.1)
  | inr h ↦ rw h q
]
follow-Quiet i e (unsubscribed j es) none a q = ground arith
follow-Quiet i e (unsubscribed j es) (some s) a q = elim (Bool-cases (j == i)) [
  | inl h ↦ rw h (includes-without_all e es s.subscriptions q.0, q.1)
  | inr h ↦ rw h q
]
follow-Quiet i e (broadcast m p) none a q = tt
follow-Quiet i e (broadcast m p) (some s) a q = notify-Quiet e m p s q
follow-Quiet i e (send j m p) none a q = ground arith
follow-Quiet i e (send j m p) (some s) a q = elim (Bool-cases (j == i)) [
  | inl h ↦ rw h (send_frame-Quiet e (notification m p) s (ground (arith, h, a)) q)
  | inr h ↦ rw h q
]

follow_all-Quiet :
    (i : ℕ) (e : String) (evs : List Event) (o : Option Session)
    → any (asks i e) evs ≡ false
    → QuietOption e o
    → QuietOption e (follow_all i evs o)
follow_all-Quiet i e [] o a q = q
follow_all-Quiet i e (ev ∷ evs) o a q =
    follow_all-Quiet i e evs (follow i ev o) (ground (arith, a))
      (follow-Quiet i e ev o (ground (arith, a)) q)

-- A client that is not subscribed to an event and has not got a notification of it has got none
-- after any events among which the client neither subscribes to it nor is sent it directly.
pub opt_in :
    (i : ℕ) (e : String) (evs : List Event) (d : Sessions) (s t : Session)
    → i < d.next_client_id
    → client i d.clients ≡ some s
    → includes e s.subscriptions ≡ false
    → any (is_about e) s.sent ≡ false
    → any (asks i e) evs ≡ false
    → client i (on_events evs d).clients ≡ some t
    → any (is_about e) t.sent ≡ false
opt_in i e evs d s t l c h g a f =
    (subst (QuietOption e) (sym (client-on_events i evs d l) ∙ f)
      (follow_all-Quiet i e evs (client i d.clients) a (subst (QuietOption e) (sym c) (h, g)))).1
