-- ===== src/Agents/Exec.antt =====
-- The life of `ExecAgentController` of src/agents/exec-controller.ts: its child processes, which run
-- for one submit each, and the calls and events that interleave with them. Children are numbered as
-- they are started. The exit, failure or timer of a child that does not run does not occur, and
-- changes nothing here; output can come after the exit.
pub mod Single
pub mod Settled
mod Tests
use cordyceps.Common.{
  ltb, leb, ◌==◌, if◌then◌else◌, ltb→lt, lt→ltb, leb→le, ==_iff, Bool-cases, Option-cases,
  String-cases, str_eq_refl, str_eq-false, length, get_elem?, take, drop, keep, any, last?,
  length-append, take-append-drop, length-take, length-drop, All, All-append, All-map,
  drop-append_of_le, take-append_of_le, drop-length-append, take-length, append-ne-nil,
  slice-append_of_le, ℕ, zero, suc, ◌+◌, ◌-◌, ◌*◌, ◌/◌, ◌%◌, ◌≤◌, ◌<◌, min, max, String, ◌≡◌, refl,
  sym, ap, ◌∙◌, ◌≢◌, ◌↔◌, ◌⊎◌, inl, inr, Bool, true, false, not, ◌&&◌, ◌||◌, Option, none, some,
  List, [], ◌∷◌, ◌++◌, map-append, append-nil, append_assoc, arith, str_eq, eq_iff, map,
}
use cordyceps.Agents.Types.{Status, idle, busy, exited}

-- `_exited` is `has_exited`, `activeChild` is `active`. `running` are the children that have not
-- ended, `signalled` those that were sent a signal, in order, and `settled` those whose submit has
-- returned or thrown. `waiting` counts the submits that wait behind their `await` of `interrupt`.
pub record Exec : Type 0 where
  pub status : Status
  pub has_exited : Bool
  pub active : Option ℕ
  pub next_child : ℕ
  pub running : List ℕ
  pub waiting : ℕ
  pub signalled : List ℕ
  pub settled : List ℕ

abbrev pub new_exec : Exec
new_exec = record {
  status = idle;
  has_exited = false;
  active = none;
  next_child = 0;
  running = [];
  waiting = 0;
  signalled = [];
  settled = [];
}

-- What `submit` does at once: throws, waits for its interrupt, or starts a child.
pub data SubmitStart : Type 0 where
  throws_exited throws_busy waits : SubmitStart
  started : ℕ → SubmitStart

abbrev pub mem : ℕ → List ℕ → Bool
mem k [] = false
mem k (j ∷ l) = j == k || mem k l

abbrev pub erase : ℕ → List ℕ → List ℕ
erase k [] = []
erase k (j ∷ l) = let rest = erase k l in if j == k then rest else j ∷ rest

abbrev pub when_busy : Status → Status
when_busy busy = idle
when_busy s = s

abbrev to_list : Option ℕ → List ℕ
to_list none = []
to_list (some k) = k ∷ []

abbrev pub is_active : Option ℕ → Bool
is_active none = false
is_active (some k) = true

-- The child's `kill` for the active child, if there is one.
abbrev pub signal_active : Exec → Exec
signal_active s = record s { signalled = s.signalled ++ to_list s.active }

-- `setStatus("busy")` and the start of `runChild`.
unfoldable pub start_child : Exec → Exec
start_child s = record s {
  status = busy;
  active = some s.next_child;
  next_child = s.next_child + 1;
  running = s.running ++ s.next_child ∷ [];
}

unfoldable pub submit : Bool → Exec → Exec × SubmitStart
unfolding start_child
submit interrupt_if_busy s =
    if s.has_exited
    then (s, throws_exited)
    else if is_active s.active
    then (if interrupt_if_busy
        then (record (signal_active s) { waiting = s.waiting + 1 }, waits)
        else (s, throws_busy))
    else (start_child s, started s.next_child)

-- A submit that waited goes on: it looks neither at `_exited` nor at `activeChild` again.
unfoldable pub resume : Exec → Exec
unfolding start_child
resume s = if ltb 0 s.waiting then start_child (record s { waiting = s.waiting - 1 }) else s

unfoldable pub interrupt : Exec → Exec
interrupt s = if s.has_exited then s else signal_active s

unfoldable pub kill : Exec → Exec
kill s = if s.has_exited then s else record (signal_active s) { has_exited = true; status = exited }

-- The promise of a child's run is resolved or rejected, the first time only; then the `finally` of
-- `submit` runs.
unfoldable pub settle : ℕ → Exec → Exec
settle k s =
    if mem k s.settled
    then s
    else record s { settled = s.settled ++ k ∷ []; status = when_busy s.status }

-- `feedChunk`: the parser may call for a status.
abbrev pub feed_status : Option Status → Exec → Exec
feed_status none s = s
feed_status (some t) s = record s { status = t }

abbrev pub end_child : ℕ → Exec → Exec
end_child k s = record s { active = none; running = erase k s.running }

-- The handlers of a child's events: output, exit, a failure to start, and the timer. The handler of
-- the exit can throw while it feeds the parser, and then settles nothing; an error can also report a
-- signal that could not be sent, and then the child runs on.
unfoldable pub child_output : ℕ → Option Status → Exec → Exec
child_output k t s = if ltb k s.next_child then feed_status t s else s

unfoldable pub child_exit : ℕ → Option Status → Exec → Exec
unfolding settle
child_exit k t s = if mem k s.running then settle k (feed_status t (end_child k s)) else s

unfoldable pub child_error : ℕ → Exec → Exec
unfolding settle
child_error k s = if mem k s.running then settle k (end_child k s) else s

unfoldable pub child_exit_throws : ℕ → Option Status → Exec → Exec
child_exit_throws k t s = if mem k s.running then feed_status t (end_child k s) else s

unfoldable pub child_kill_error : ℕ → Exec → Exec
unfolding settle
child_kill_error k s = if mem k s.running then settle k (record s { active = none }) else s

abbrev pub add_signal : ℕ → Exec → Exec
add_signal k s = record s { signalled = s.signalled ++ k ∷ [] }

unfoldable pub child_timeout : ℕ → Exec → Exec
unfolding settle
child_timeout k s =
    if mem k s.running && not (mem k s.settled) then add_signal k (settle k s) else s

pub data Event : Type 0 where
  submitted : (interrupt_if_busy : Bool) → Event
  resumed interrupted killed : Event
  output exit exit_threw : ℕ → Option Status → Event
  error kill_error timeout : ℕ → Event

unfoldable pub on_event : Event → Exec → Exec
unfolding submit resume interrupt kill child_output child_exit child_exit_throws child_error
    child_kill_error child_timeout
on_event (submitted b) s = (submit b s).0
on_event resumed s = resume s
on_event interrupted s = interrupt s
on_event killed s = kill s
on_event (output k t) s = child_output k t s
on_event (exit k t) s = child_exit k t s
on_event (exit_threw k t) s = child_exit_throws k t s
on_event (error k) s = child_error k s
on_event (kill_error k) s = child_kill_error k s
on_event (timeout k) s = child_timeout k s

unfoldable pub on_events : List Event → Exec → Exec
unfolding on_event
on_events [] s = s
on_events (e ∷ es) s = on_events es (on_event e s)
