-- ===== src/Core/Bus.antt =====
-- The listeners of `createServiceBus` in src/core/bus.ts. A listener is the number of a function
-- object. The sets of listeners are objects too: a handle keeps the set that it was made with, also
-- where the map has another set for the event, or none.
pub mod Handles
pub mod Separate
mod Tests
use cordyceps.Common.{
  ltb, leb, ◌==◌, if◌then◌else◌, ltb→lt, lt→ltb, leb→le, ==_iff, Bool-cases, Option-cases,
  String-cases, str_eq_refl, str_eq-false, length, get_elem?, take, drop, keep, any, last?,
  length-append, take-append-drop, length-take, length-drop, All, All-append, All-map,
  drop-append_of_le, take-append_of_le, drop-length-append, take-length, append-ne-nil,
  slice-append_of_le, ℕ, zero, suc, ◌+◌, ◌-◌, ◌*◌, ◌/◌, ◌%◌, ◌≤◌, ◌<◌, min, max, String, ◌≡◌, refl,
  sym, ap, ◌∙◌, ◌≢◌, ◌↔◌, ◌⊎◌, inl, inr, Bool, true, false, not, ◌&&◌, ◌||◌, Option, none, some,
  List, [], ◌∷◌, ◌++◌, map-append, append-nil, append_assoc, arith, str_eq, eq_iff, map,
}
use cordyceps.Common.Map
use cordyceps.Common.Map.{Map}

-- `sets` has the content of each set that was made; `listeners` the set of an event.
pub record ServiceBus : Type 0 where
  pub next_set : ℕ
  pub sets : List (ℕ × List ℕ)
  pub listeners : Map ℕ

pub record Handle : Type 0 where
  pub event : String
  pub set_of : ℕ
  pub callback : ℕ

abbrev pub create_service_bus : ServiceBus
create_service_bus = record { next_set = 0; sets = []; listeners = [] }

abbrev pub mem : ℕ → List ℕ → Bool
mem k [] = false
mem k (j ∷ l) = j == k || mem k l

unfoldable pub add_callback : ℕ → List ℕ → List ℕ
add_callback cb l = if mem cb l then l else l ++ cb ∷ []

unfoldable pub delete_callback : ℕ → List ℕ → List ℕ
delete_callback cb [] = []
delete_callback cb (c ∷ l) = let rest = delete_callback cb l in if c == cb then rest else c ∷ rest

unfoldable pub content : ℕ → List (ℕ × List ℕ) → List ℕ
content i [] = []
content i ((j, l) ∷ sets) = if j == i then l else content i sets

unfoldable pub set_content : ℕ → List ℕ → List (ℕ × List ℕ) → List (ℕ × List ℕ)
set_content i l [] = (i, l) ∷ []
set_content i l ((j, k) ∷ sets) = if j == i then (j, l) ∷ sets else (j, k) ∷ set_content i l sets

-- The callbacks that `emit` calls, in order, from the copy that it makes of the set.
unfoldable pub emitted : String → ServiceBus → List ℕ
unfolding content
emitted event b = elim (Map.get event b.listeners) [ none ↦ [] | some i ↦ content i b.sets ]

abbrev pub is_empty : List ℕ → Bool
is_empty [] = true
is_empty (c ∷ l) = false

unfoldable pub add_to : String → ℕ → ℕ → ServiceBus → ServiceBus × Handle
unfolding add_callback set_content content
add_to event i cb b = (
  record b { sets = set_content i (add_callback cb (content i b.sets)) b.sets },
  record { event = event; set_of = i; callback = cb },
)

unfoldable pub on : String → ℕ → ServiceBus → ServiceBus × Handle
unfolding add_to
on event cb b = elim (Map.get event b.listeners) [
  | some i ↦ add_to event i cb b
  | none ↦ add_to event b.next_set cb (record {
    next_set = b.next_set + 1;
    sets = set_content b.next_set [] b.sets;
    listeners = Map.put event b.next_set b.listeners;
  })
]

-- `set.delete(cb); if (set.size === 0) listeners.delete(event);`
unfoldable pub drop_from : String → ℕ → ℕ → ServiceBus → ServiceBus
unfolding delete_callback set_content content
drop_from event i cb b =
    let left = delete_callback cb (content i b.sets) in
    record b {
      sets = set_content i left b.sets;
      listeners = if is_empty left then Map.delete event b.listeners else b.listeners;
    }

-- A call of the handle.
unfoldable pub unsubscribe : Handle → ServiceBus → ServiceBus
unfolding drop_from
unsubscribe h b = drop_from h.event h.set_of h.callback b

unfoldable pub off : String → ℕ → ServiceBus → ServiceBus
unfolding drop_from
off event cb b = elim (Map.get event b.listeners) [ none ↦ b | some i ↦ drop_from event i cb b ]
