-- ===== src/Agents/Exec/Settled.antt =====
-- Every submit that starts a child ends once.
use cordyceps.Common.{
  by_test, any, ◌-◌, ltb, ◌==◌, if◌then◌else◌, Bool-cases, ℕ, ◌+◌, ◌≤◌, ◌<◌, ◌≡◌, refl, ap, ◌⊎◌,
  inl, inr, Bool, true, false, not, ◌&&◌, ◌||◌, Option, none, some, List, [], ◌∷◌, ◌++◌, arith,
}
use cordyceps.Agents.Types.{Status}
use cordyceps.Agents.Exec.{
  Exec, new_exec, mem, erase, is_active, start_child, submit, interrupt, kill, resume, resumed,
  child_exit_throws, child_kill_error, exit_threw, kill_error, settle, feed_status, end_child,
  child_output, child_exit, child_error, child_timeout, Event, submitted, interrupted, killed,
  output, exit, error, timeout, on_event, on_events,
}

abbrev pub count : ℕ → List ℕ → ℕ
count k [] = 0
count k (j ∷ l) = (if j == k then 1 else 0) + count k l

-- A child that was started runs or its submit has ended, and no submit has ended twice.
abbrev Accounted : ℕ → Exec → Type 0
Accounted k s =
    ((s.next_child ≤ k) ⊎ ((mem k s.running ≡ true) ⊎ (mem k s.settled ≡ true)))
    × (count k s.settled ≤ 1)

mem-append : (k j : ℕ) (l : List ℕ) → mem k (l ++ j ∷ []) ≡ mem k l || (j == k)
mem-append k j [] = ground arith
mem-append k j (i ∷ l) = ground (arith, mem-append k j l)

mem-erase : (k j : ℕ) (l : List ℕ) → mem k (erase j l) ≡ mem k l && not (j == k)
mem-erase k j [] = ground arith
mem-erase k j (i ∷ l) = ground (arith, mem-erase k j l)

count-append :
    (k j : ℕ) (l : List ℕ) → count k (l ++ j ∷ []) ≡ count k l + (if j == k then 1 else 0)
count-append k j [] = ground arith
count-append k j (i ∷ l) = ground (arith, count-append k j l)

count-mem : (k : ℕ) (l : List ℕ) → mem k l ≡ false → count k l ≡ 0
count-mem k [] h = refl
count-mem k (i ∷ l) h = ground (arith, h, count-mem k l)

-- Settling the child `j` of a state in which `j` need not be accounted for.
settle-Accounted :
    (j k : ℕ) (s : Exec)
    → (s.next_child ≤ k) ⊎ ((mem k s.running ≡ true) ⊎ ((mem k s.settled ≡ true) ⊎ (j ≡ k)))
    → count k s.settled ≤ 1
    → Accounted k (settle j s)
unfolding settle
settle-Accounted j k s a c = elim (Bool-cases (mem j s.settled)) [
  | inl e ↦ rw e (ground (arith, e, a, ap (λ i. mem i s.settled)), c)
  | inr e ↦ rw e (
    ground (arith, a, mem-append k j s.settled),
    ground (arith, c, count-append k j s.settled, count-mem k s.settled, e),
  )
]

feed_status-Accounted :
    (k : ℕ) (t : Option Status) (s : Exec) → Accounted k s → Accounted k (feed_status t s)
feed_status-Accounted k none s h = h
feed_status-Accounted k (some t) s h = h

start_child-Accounted : (k : ℕ) (s : Exec) → Accounted k s → Accounted k (start_child s)
unfolding start_child
start_child-Accounted k s h = (ground (arith, h.0, mem-append k s.next_child s.running), h.1)

submit-Accounted : (b : Bool) (k : ℕ) (s : Exec) → Accounted k s → Accounted k (submit b s).0
unfolding submit
submit-Accounted b k s h = elim (Bool-cases s.has_exited) [
  | inl e ↦ rw e h
  | inr e ↦ elim (Bool-cases (is_active s.active)) [
    | inr a ↦ rw (e, a) (start_child-Accounted k s h)
    | inl a ↦ elim (Bool-cases b) [ inl i ↦ rw (e, a, i) h | inr i ↦ rw (e, a, i) h ]
  ]
]

-- A child has ended, and settles: it need not be accounted for before.
end_child-Accounted :
    (j k : ℕ) (t : Option Status) (s : Exec)
    → Accounted k s
    → Accounted k (settle j (feed_status t (end_child j s)))
end_child-Accounted j k none s h =
    settle-Accounted j k (end_child j s) (ground (arith, h.0, mem-erase k j s.running)) h.1
end_child-Accounted j k (some t) s h =
    settle-Accounted j k (feed_status (some t) (end_child j s))
      (ground (arith, h.0, mem-erase k j s.running)) h.1

-- The handler of the child's exit throws.
abbrev pub throws_at : ℕ → Event → Bool
throws_at k (exit_threw j t) = j == k
throws_at k _ = false

on_event-Accounted :
    (e : Event) (k : ℕ) (s : Exec)
    → throws_at k e ≡ false
    → Accounted k s
    → Accounted k (on_event e s)
unfolding on_event resume interrupt kill child_output child_exit child_exit_throws child_error
    child_kill_error child_timeout
on_event-Accounted (submitted b) k s q h = submit-Accounted b k s h
on_event-Accounted resumed k s q h =
    by_test (Accounted k) (ltb 0 s.waiting)
      (λ e. start_child-Accounted k (record s { waiting = s.waiting - 1 }) h) (λ e. h)
on_event-Accounted interrupted k s q h = by_test (Accounted k) s.has_exited (λ e. h) (λ e. h)
on_event-Accounted killed k s q h = by_test (Accounted k) s.has_exited (λ e. h) (λ e. h)
on_event-Accounted (output j t) k s q h =
    by_test (Accounted k) (ltb j s.next_child) (λ e. feed_status-Accounted k t s h) (λ e. h)
on_event-Accounted (exit j t) k s q h =
    by_test (Accounted k) (mem j s.running) (λ e. end_child-Accounted j k t s h) (λ e. h)
on_event-Accounted (exit_threw j t) k s q h =
    by_test (Accounted k) (mem j s.running)
      (λ e.
        feed_status-Accounted k t (end_child j s)
          (ground (arith, h.0, q, mem-erase k j s.running), h.1))
      (λ e. h)
on_event-Accounted (error j) k s q h =
    by_test (Accounted k) (mem j s.running) (λ e. end_child-Accounted j k none s h) (λ e. h)
on_event-Accounted (kill_error j) k s q h =
    by_test (Accounted k) (mem j s.running)
      (λ e. settle-Accounted j k (record s { active = none }) (ground (arith, h.0)) h.1) (λ e. h)
on_event-Accounted (timeout j) k s q h =
    by_test (Accounted k) (mem j s.running && not (mem j s.settled))
      (λ e. settle-Accounted j k s (ground (arith, h.0)) h.1) (λ e. h)

on_events-Accounted :
    (es : List Event) (k : ℕ) (s : Exec)
    → any (throws_at k) es ≡ false
    → Accounted k s
    → Accounted k (on_events es s)
unfolding on_events
on_events-Accounted [] k s q h = h
on_events-Accounted (e ∷ es) k s q h =
    on_events-Accounted es k (on_event e s) (ground (arith, q))
      (on_event-Accounted e k s (ground (arith, q)) h)

-- Whatever comes in whatever order, interrupting submits and failing signals included: a child that
-- was started, and whose exit handler does not throw while it feeds the parser, still runs or its
-- submit has returned or thrown, and the submit does so once at most.
pub on_events_settle :
    (es : List Event) (k : ℕ)
    → any (throws_at k) es ≡ false
    → k < (on_events es new_exec).next_child
    → ((mem k (on_events es new_exec).running ≡ true)
        ⊎ (mem k (on_events es new_exec).settled ≡ true))
      × (count k (on_events es new_exec).settled ≤ 1)
on_events_settle es k q h =
    let a = on_events-Accounted es k new_exec q (inl (omega arith), omega arith) in
    (elim a.0 [ inl l ↦ absurd (omega (arith, l, h)) | inr r ↦ r ], a.1)
