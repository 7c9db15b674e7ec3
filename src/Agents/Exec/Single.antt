-- ===== src/Agents/Exec/Single.antt =====
-- One child at a time.
use cordyceps.Common.{
  by_test, ltb, Bool-cases, any, ℕ, ◌≡◌, refl, ◌∙◌, ◌⊎◌, inl, inr, Bool, true, false, not, ◌&&◌,
  Option, none, some, List, [], ◌∷◌, arith,
}
use cordyceps.Agents.Types.{Status}
use cordyceps.Agents.Manager.{Runtime}
use cordyceps.Agents.Manager.Lifecycle.{Kills}
use cordyceps.Agents.Exec.{
  Exec, new_exec, mem, erase, throws_exited, is_active, start_child, submit, interrupt, kill,
  resume, resumed, child_exit_throws, child_kill_error, exit_threw, kill_error, settle, feed_status,
  end_child, child_output, child_exit, child_error, child_timeout, Event, submitted, interrupted,
  killed, output, exit, error, timeout, on_event, on_events,
}

-- No child runs, or just the active one.
abbrev pub IsSingle : Exec → Type 0
IsSingle s =
    ((s.active ≡ none) × (s.running ≡ [])) ⊎ ((k : ℕ) × (s.active ≡ some k) × (s.running ≡ k ∷ []))

-- A submit with `interruptIfBusy`, or a signal that could not be sent.
abbrev pub barges : Event → Bool
barges (submitted b) = b
barges (kill_error k) = true
barges _ = false

settle-fields :
    (k : ℕ) (s : Exec)
    → ((settle k s).active ≡ s.active)
      × ((settle k s).running ≡ s.running)
      × ((settle k s).has_exited ≡ s.has_exited)
      × ((settle k s).next_child ≡ s.next_child)
      × ((settle k s).waiting ≡ s.waiting)
unfolding settle
settle-fields k s = elim (Bool-cases (mem k s.settled)) [
  | inl e ↦ rw e (refl, refl, refl, refl, refl)
  | inr e ↦ rw e (refl, refl, refl, refl, refl)
]

feed_status-fields :
    (t : Option Status) (s : Exec)
    → ((feed_status t s).active ≡ s.active)
      × ((feed_status t s).running ≡ s.running)
      × ((feed_status t s).has_exited ≡ s.has_exited)
      × ((feed_status t s).next_child ≡ s.next_child)
      × ((feed_status t s).settled ≡ s.settled)
      × ((feed_status t s).waiting ≡ s.waiting)
feed_status-fields none s = (refl, refl, refl, refl, refl, refl)
feed_status-fields (some t) s = (refl, refl, refl, refl, refl, refl)

IsSingle-same : (s t : Exec) → t.active ≡ s.active → t.running ≡ s.running → IsSingle s → IsSingle t
IsSingle-same s t a r (inl (x, y)) = inl (a ∙ x, r ∙ y)
IsSingle-same s t a r (inr (k, x, y)) = inr (k, a ∙ x, r ∙ y)

erase-single : (j k : ℕ) → mem j (k ∷ []) ≡ true → erase j (k ∷ []) ≡ []
erase-single j k h = ground (arith, h)

end_child-IsSingle :
    (k : ℕ) (s : Exec) → mem k s.running ≡ true → IsSingle s → IsSingle (end_child k s)
end_child-IsSingle k s m (inl (a, r)) = inl (refl, rw r refl)
end_child-IsSingle k s m (inr (j, a, r)) = inl (refl, rw r (erase-single k j (rw r at m)))

start_child-IsSingle : (s : Exec) → s.active ≡ none → IsSingle s → IsSingle (start_child s)
unfolding start_child
start_child-IsSingle s e (inl (a, r)) = inr (s.next_child, refl, rw r refl)
start_child-IsSingle s e (inr (k, a, r)) = absurd (ground (arith, e, a))

is_active-none : (o : Option ℕ) → is_active o ≡ false → o ≡ none
is_active-none none h = refl
is_active-none (some k) h = absurd (ground (arith, h))

-- No submit waits either.
abbrev Calm : Exec → Type 0
Calm s = IsSingle s × (s.waiting ≡ 0)

submit-Calm : (s : Exec) → Calm s → Calm (submit false s).0
unfolding submit start_child
submit-Calm s h = elim (Bool-cases s.has_exited) [
  | inl e ↦ rw e h
  | inr e ↦ elim (Bool-cases (is_active s.active)) [
    | inl a ↦ rw (e, a) h
    | inr a ↦ rw (e, a) (start_child-IsSingle s (is_active-none s.active a) h.0, h.1)
  ]
]

settle-Calm : (k : ℕ) (s : Exec) → Calm s → Calm (settle k s)
settle-Calm k s h =
    let (a, r, x, n, w) = settle-fields k s in (IsSingle-same s (settle k s) a r h.0, w ∙ h.1)

feed_status-Calm : (t : Option Status) (s : Exec) → Calm s → Calm (feed_status t s)
feed_status-Calm t s h =
    let (a, r, x, n, d, w) = feed_status-fields t s in
    (IsSingle-same s (feed_status t s) a r h.0, w ∙ h.1)

end_child-Calm : (k : ℕ) (s : Exec) → mem k s.running ≡ true → Calm s → Calm (end_child k s)
end_child-Calm k s m h = (end_child-IsSingle k s m h.0, h.1)

on_event-Calm : (e : Event) (s : Exec) → barges e ≡ false → Calm s → Calm (on_event e s)
unfolding on_event resume interrupt kill child_output child_exit child_exit_throws child_error
    child_kill_error child_timeout
on_event-Calm (submitted b) s q h = rw q (submit-Calm s h)
on_event-Calm resumed s q h =
    by_test Calm (ltb 0 s.waiting) (λ e. absurd (ground (arith, e, h.1))) (λ e. h)
on_event-Calm interrupted s q h = by_test Calm s.has_exited (λ e. h) (λ e. h)
on_event-Calm killed s q h = by_test Calm s.has_exited (λ e. h) (λ e. h)
on_event-Calm (output k t) s q h =
    by_test Calm (ltb k s.next_child) (λ e. feed_status-Calm t s h) (λ e. h)
on_event-Calm (exit k t) s q h =
    by_test Calm (mem k s.running)
      (λ e.
        settle-Calm k (feed_status t (end_child k s))
          (feed_status-Calm t (end_child k s) (end_child-Calm k s e h)))
      (λ e. h)
on_event-Calm (exit_threw k t) s q h =
    by_test Calm (mem k s.running)
      (λ e. feed_status-Calm t (end_child k s) (end_child-Calm k s e h)) (λ e. h)
on_event-Calm (error k) s q h =
    by_test Calm (mem k s.running) (λ e. settle-Calm k (end_child k s) (end_child-Calm k s e h))
      (λ e. h)
on_event-Calm (kill_error k) s q h = absurd (ground (arith, q))
on_event-Calm (timeout k) s q h =
    by_test Calm (mem k s.running && not (mem k s.settled)) (λ e. settle-Calm k s h) (λ e. h)

on_events-Calm :
    (es : List Event) (s : Exec) → any barges es ≡ false → Calm s → Calm (on_events es s)
unfolding on_events
on_events-Calm [] s q h = h
on_events-Calm (e ∷ es) s q h =
    on_events-Calm es (on_event e s) (ground (arith, q)) (on_event-Calm e s (ground (arith, q)) h)

-- As long as no submit asks to interrupt a busy agent and no signal to a child fails to be sent, at
-- most one child runs at any time, and then it is the active one, whatever submits, interrupts,
-- kills, outputs, exits, failures to start and timeouts come in whatever order.
pub on_events-IsSingle :
    (es : List Event) → any barges es ≡ false → IsSingle (on_events es new_exec)
on_events-IsSingle es q = (on_events-Calm es new_exec q (inl (refl, refl), refl)).0

-- The agent has exited with this many children started, and no submit waits.
abbrev Ended : ℕ → Exec → Type 0
Ended n s = (s.has_exited ≡ true) × (s.next_child ≡ n) × (s.waiting ≡ 0)

settle-Ended : (k n : ℕ) (s : Exec) → Ended n s → Ended n (settle k s)
settle-Ended k n s h = let (a, r, x, m, w) = settle-fields k s in (x ∙ h.0, m ∙ h.1, w ∙ h.2)

feed_status-Ended : (t : Option Status) (n : ℕ) (s : Exec) → Ended n s → Ended n (feed_status t s)
feed_status-Ended t n s h =
    let (a, r, x, m, d, w) = feed_status-fields t s in (x ∙ h.0, m ∙ h.1, w ∙ h.2)

on_event-Ended : (e : Event) (n : ℕ) (s : Exec) → Ended n s → Ended n (on_event e s)
unfolding on_event submit resume interrupt kill child_output child_exit child_exit_throws
    child_error child_kill_error child_timeout
on_event-Ended (submitted b) n s h = rw h.0 (refl, h.1, h.2)
on_event-Ended resumed n s h =
    by_test (Ended n) (ltb 0 s.waiting) (λ e. absurd (ground (arith, e, h.2))) (λ e. h)
on_event-Ended interrupted n s h = rw h.0 (refl, h.1, h.2)
on_event-Ended killed n s h = rw h.0 (refl, h.1, h.2)
on_event-Ended (output k t) n s h =
    by_test (Ended n) (ltb k s.next_child) (λ e. feed_status-Ended t n s h) (λ e. h)
on_event-Ended (exit k t) n s h =
    by_test (Ended n) (mem k s.running)
      (λ e.
        settle-Ended k n (feed_status t (end_child k s)) (feed_status-Ended t n (end_child k s) h))
      (λ e. h)
on_event-Ended (exit_threw k t) n s h =
    by_test (Ended n) (mem k s.running) (λ e. feed_status-Ended t n (end_child k s) h) (λ e. h)
on_event-Ended (error k) n s h =
    by_test (Ended n) (mem k s.running) (λ e. settle-Ended k n (end_child k s) h) (λ e. h)
on_event-Ended (kill_error k) n s h =
    by_test (Ended n) (mem k s.running) (λ e. settle-Ended k n (record s { active = none }) h)
      (λ e. h)
on_event-Ended (timeout k) n s h =
    by_test (Ended n) (mem k s.running && not (mem k s.settled)) (λ e. settle-Ended k n s h)
      (λ e. h)

on_events-Ended : (es : List Event) (n : ℕ) (s : Exec) → Ended n s → Ended n (on_events es s)
unfolding on_events
on_events-Ended [] n s h = h
on_events-Ended (e ∷ es) n s h = on_events-Ended es n (on_event e s) (on_event-Ended e n s h)

kill-exits : (s : Exec) → (kill s).has_exited ≡ true
unfolding kill
kill-exits s = elim (Bool-cases s.has_exited) [ inl e ↦ rw e refl | inr e ↦ rw e refl ]

kill-Ended : (s : Exec) → s.waiting ≡ 0 → Ended s.next_child (kill s)
unfolding kill
kill-Ended s w = elim (Bool-cases s.has_exited) [
  | inl e ↦ rw e (refl, refl, w)
  | inr e ↦ rw e (refl, refl, w)
]

-- After a kill that finds no submit waiting for its interrupt, whatever comes then, the agent has
-- exited, has started no child since, and every submit throws.
pub on_events-kill :
    (es : List Event) (s : Exec) (b : Bool)
    → s.waiting ≡ 0
    → ((on_events es (kill s)).has_exited ≡ true)
      × ((on_events es (kill s)).next_child ≡ s.next_child)
      × (submit b (on_events es (kill s)) ≡ (on_events es (kill s), throws_exited))
unfolding submit
on_events-kill es s b w =
    let h = on_events-Ended es s.next_child (kill s) (kill-Ended s w) in (h.0, h.1, rw h.0 refl)

-- The controller as a runtime of the manager.
abbrev pub exec_runtime : Runtime Exec
exec_runtime = record { exited = λ s. s.has_exited; kill = λ s. (kill s, none) }

-- It keeps the law that the manager relies on: a killed agent has exited.
pub exec_runtime-Kills : Kills exec_runtime
exec_runtime-Kills s = kill-exits s
