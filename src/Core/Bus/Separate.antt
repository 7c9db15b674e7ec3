-- ===== src/Core/Bus/Separate.antt =====
-- The sets of the events stay apart, and what an event then reaches.
use cordyceps.Common.{
  any, keep, ◌==◌, if◌then◌else◌, not, ◌||◌, ◌++◌, str_eq, List, [], ◌∷◌, ap, ◌∙◌, arith, refl, ◌≡◌,
  ℕ, String, Bool-cases, Option-cases, ℕ, String, ◌≡◌, refl, sym, ap, ◌∙◌, inl, inr, arith,
}
use cordyceps.Common.Map
use cordyceps.Common.Map.{Map, get, get-delete}
use cordyceps.Core.Bus.{
  mem, add_callback, emitted, ServiceBus, create_service_bus, content, delete_callback, is_empty,
  add_to, on, drop_from, off,
}
use cordyceps.Core.Bus.Handles.{
  IsSeparate, with_set, with_set-IsSeparate, on-some, on-none, off-some, off-none, emitted-on,
  emitted-off,
}

pub create_service_bus-IsSeparate : IsSeparate create_service_bus
unfolding Map.get
create_service_bus-IsSeparate = record {
  made = λ e i h. absurd (ground (arith, h));
  apart = λ e f i h k. absurd (ground (arith, h));
}

add_to-IsSeparate :
    (e : String) (i cb : ℕ) (b : ServiceBus) → IsSeparate b → IsSeparate (add_to e i cb b).0
unfolding add_to
add_to-IsSeparate e i cb b s = record { made = s.made; apart = s.apart }

delete-IsSeparate :
    (e : String) (b c : ServiceBus)
    → c.next_set ≡ b.next_set
    → c.listeners ≡ Map.delete e b.listeners
    → IsSeparate b
    → IsSeparate c
delete-IsSeparate e b c n l s = record {
  made = λ f i h.
      rw n (s.made f i (ground (arith, sym (ap (Map.get f) l) ∙ h, get-delete e f b.listeners)));
  apart = λ f g i h k.
      s.apart f g i (ground (arith, sym (ap (Map.get f) l) ∙ h, get-delete e f b.listeners))
        (ground (arith, sym (ap (Map.get g) l) ∙ k, get-delete e g b.listeners));
}

drop_from-IsSeparate :
    (e : String) (i cb : ℕ) (b : ServiceBus) → IsSeparate b → IsSeparate (drop_from e i cb b)
unfolding drop_from
drop_from-IsSeparate e i cb b s =
    elim (Bool-cases (is_empty (delete_callback cb (content i b.sets)))) [
      | inl x ↦ delete-IsSeparate e b (drop_from e i cb b) refl (rw x refl) s
      | inr x ↦ record {
        made = λ f j h. s.made f j (ground (arith, x, h));
        apart = λ f g j h k. s.apart f g j (ground (arith, x, h)) (ground (arith, x, k));
      }
    ]

on-IsSeparate : (e : String) (cb : ℕ) (b : ServiceBus) → IsSeparate b → IsSeparate (on e cb b).0
on-IsSeparate e cb b s = elim (Option-cases (Map.get e b.listeners)) [
  | inl n ↦
      rw (on-none e cb b n)
        (add_to-IsSeparate e b.next_set cb (with_set e b) (with_set-IsSeparate e b s))
  | inr (i, n) ↦ rw (on-some e i cb b n) (add_to-IsSeparate e i cb b s)
]

off-IsSeparate : (e : String) (cb : ℕ) (b : ServiceBus) → IsSeparate b → IsSeparate (off e cb b)
off-IsSeparate e cb b s = elim (Option-cases (Map.get e b.listeners)) [
  | inl n ↦ rw (off-none e cb b n) s
  | inr (i, n) ↦ rw (off-some e i cb b n) (drop_from-IsSeparate e i cb b s)
]

-- Calls of `on` and `off`.
pub data Use : Type 0 where
  subscribes leaves : String → ℕ → Use

unfoldable pub on_uses : List Use → ServiceBus → ServiceBus
unfolding on off
on_uses [] b = b
on_uses (subscribes e cb ∷ us) b = on_uses us (on e cb b).0
on_uses (leaves e cb ∷ us) b = on_uses us (off e cb b)

-- What one event has heard of the calls: a list of callbacks, each once.
abbrev pub subscribed_after : String → List Use → List ℕ → List ℕ
subscribed_after f [] l = l
subscribed_after f (subscribes e cb ∷ us) l =
    subscribed_after f us
      (if str_eq e f then (if any (λ c. c == cb) l then l else l ++ cb ∷ []) else l)
subscribed_after f (leaves e cb ∷ us) l =
    subscribed_after f us (if str_eq e f then keep (λ c. not (c == cb)) l else l)

add_callback_lem :
    (cb : ℕ) (l : List ℕ) → add_callback cb l ≡ (if any (λ c. c == cb) l then l else l ++ cb ∷ [])
unfolding add_callback
add_callback_lem cb l = ap (λ x. if x then l else l ++ cb ∷ []) (mem_any cb l)
  where
    mem_any : (k : ℕ) (m : List ℕ) → mem k m ≡ any (λ c. c == k) m
    mem_any k [] = refl
    mem_any k (j ∷ m) = ap (λ x. j == k || x) (mem_any k m)

delete_callback_lem : (cb : ℕ) (l : List ℕ) → delete_callback cb l ≡ keep (λ c. not (c == cb)) l
unfolding delete_callback
delete_callback_lem cb [] = refl
delete_callback_lem cb (c ∷ l) = ground (arith, delete_callback_lem cb l)

on_uses_from :
    (us : List Use) (f : String) (b : ServiceBus)
    → IsSeparate b
    → emitted f (on_uses us b) ≡ subscribed_after f us (emitted f b)
unfolding on_uses
on_uses_from [] f b s = refl
on_uses_from (subscribes e cb ∷ us) f b s =
    on_uses_from us f (on e cb b).0 (on-IsSeparate e cb b s)
    ∙ ap (subscribed_after f us) (
        emitted-on e f cb b s
        ∙ ap (λ l. if str_eq e f then l else emitted f b) (add_callback_lem cb (emitted f b)))
on_uses_from (leaves e cb ∷ us) f b s =
    on_uses_from us f (off e cb b) (off-IsSeparate e cb b s)
    ∙ ap (subscribed_after f us) (
        emitted-off e f cb b s
        ∙ ap (λ l. if str_eq e f then l else emitted f b) (delete_callback_lem cb (emitted f b)))

-- After any calls of `on` and `off` on a new bus, of whatever events and callbacks, an event reaches the
-- callbacks that were subscribed to it and not taken off since, each once, in the order of their first
-- subscription since then: no call about another event adds one, takes one off or moves one. (No handle
-- of a subscription is called.)
pub emitted-on_uses :
    (us : List Use) (f : String)
    → emitted f (on_uses us create_service_bus) ≡ subscribed_after f us []
unfolding emitted get
emitted-on_uses us f = on_uses_from us f create_service_bus create_service_bus-IsSeparate
