-- ===== src/Agents/Exec/Tests.antt =====
-- The controller at concrete events.
use cordyceps.Common.{◌≤◌, ◌≡◌, refl, ◌⊎◌, true, false, none, some, List, [], ◌∷◌, arith}
use cordyceps.Agents.Types.{idle}
use cordyceps.Agents.Exec.{
  Exec, new_exec, mem, throws_exited, submit, kill, Event, submitted, interrupted, killed, exit,
  exit_threw, kill_error, resumed, timeout, on_events,
}
use cordyceps.Agents.Exec.Single.{IsSingle, on_events-IsSingle, on_events-kill}
use cordyceps.Agents.Exec.Settled.{count, on_events_settle}

-- A submit times out, its child exits, and the next one runs.
abbrev events : List Event
events =
    submitted false
    ∷ timeout 0
    ∷ submitted false
    ∷ exit 0 none
    ∷ submitted false
    ∷ interrupted
    ∷ exit 1 none
    ∷ []

-- An interrupting submit starts a second child; the exit of the first then clears the entry of the
-- second, and a plain submit starts a third child beside it.
abbrev race : List Event
race = submitted false ∷ submitted true ∷ resumed ∷ exit 0 none ∷ submitted false ∷ []

race_running : (on_events race new_exec).running ≡ 1 ∷ 2 ∷ []
unfolding on_events
race_running = refl

-- A kill comes while a submit waits for its interrupt: the submit starts a child of an exited agent.
late_child :
    (on_events (submitted false ∷ submitted true ∷ killed ∷ resumed ∷ []) new_exec).running
    ≡ 0 ∷ 1 ∷ []
unfolding on_events
late_child = refl

-- The exit handler throws: the submit never ends.
lost_submit :
    (on_events (submitted false ∷ exit_threw 0 none ∷ timeout 0 ∷ []) new_exec).settled ≡ []
unfolding on_events
lost_submit = refl

-- A signal cannot be sent: the submit ends, its child runs on, and the next one runs beside it.
two_children :
    (on_events
      (submitted false ∷ interrupted ∷ kill_error 0 ∷ submitted false ∷ [])
      new_exec).running
    ≡ 0 ∷ 1 ∷ []
unfolding on_events
two_children = refl

-- After a kill the last output of the child can make the status idle again.
status_after_kill :
    (on_events (submitted false ∷ killed ∷ exit 0 (some idle) ∷ []) new_exec).status ≡ idle
unfolding on_events
status_after_kill = refl

on_events-IsSingle_example : IsSingle (on_events events new_exec)
on_events-IsSingle_example = on_events-IsSingle events refl

abbrev one_child : Exec
one_child = on_events (submitted false ∷ []) new_exec

on_events-kill_example :
    ((on_events events (kill one_child)).has_exited ≡ true)
    × ((on_events events (kill one_child)).next_child ≡ one_child.next_child)
    × (submit true (on_events events (kill one_child))
        ≡ (on_events events (kill one_child), throws_exited))
unfolding on_events
on_events-kill_example = on_events-kill events one_child true refl

on_events_settle_example :
    ((mem 1 (on_events events new_exec).running ≡ true)
      ⊎ (mem 1 (on_events events new_exec).settled ≡ true))
    × (count 1 (on_events events new_exec).settled ≤ 1)
unfolding on_events
on_events_settle_example = on_events_settle events 1 refl (omega arith)
