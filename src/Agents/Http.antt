-- ===== src/Agents/Http.antt =====
-- `ServerHttpAgentController` of src/agents/server-http-controller.ts: its requests, which run for one
-- submit each, and the calls and events that interleave with them. A submit is three pieces of code
-- with an `await` between them: the checks, the call of the driver's control, and the request. The
-- driver's control writes the body that `body_of` gives for a prompt, if any, before its `await`.
pub mod Body
pub mod Stream
pub mod Life
mod Tests
use cordyceps.Common.{
  ltb, leb, ◌==◌, if◌then◌else◌, ltb→lt, lt→ltb, leb→le, ==_iff, Bool-cases, Option-cases,
  String-cases, str_eq_refl, str_eq-false, by_test, length, get_elem?, take, drop, keep, any, last?,
  length-append, take-append-drop, length-take, length-drop, All, All-append, All-map,
  drop-append_of_le, take-append_of_le, drop-length-append, take-length, append-ne-nil,
  slice-append_of_le, ℕ, zero, suc, ◌+◌, ◌-◌, ◌*◌, ◌/◌, ◌%◌, ◌≤◌, ◌<◌, min, max, String, ◌≡◌, refl,
  sym, ap, ◌∙◌, ◌≢◌, ◌↔◌, ◌⊎◌, inl, inr, Bool, true, false, not, ◌&&◌, ◌||◌, Option, none, some,
  List, [], ◌∷◌, ◌++◌, map-append, append-nil, append_assoc, arith, str_eq, eq_iff, map,
}
use cordyceps.Agents.Types.{Status, idle, busy, AssistantMessage}
use cordyceps.Agents.Exec.{mem, erase}
use cordyceps.Agents.Feed.{
  State, Parsed, output, Agent, emit, new_agent, same_status, set_status, feed_chunk, finish,
}

-- A submit that waits, for its interrupt or for the driver's control.
pub record Submit : Type 0 where
  pub id : ℕ
  pub prompt : String

-- `active` is the number of the request that `activeAbort` aborts and `pending` is `pendingBody`.
-- `barging` wait for their interrupt and `staging` for the control. `sent` holds the bodies of all
-- requests in order, `running` the requests in flight, each with its submit, and `aborted` those that
-- were aborted. Of a submit that has returned, `results` holds the last message told since its request
-- began (`from` is where the transcript ended then).
pub record Request : Type 0 where
  pub number : ℕ
  pub from : ℕ

pub record Http (R : Type 0) : Type 0 where
  pub agent : Agent R
  pub active : Option ℕ
  pub pending : Option String
  pub next_submit : ℕ
  pub barging : List Submit
  pub staging : List Submit
  pub sent : List String
  pub running : List Request
  pub aborted : List ℕ
  pub results : List (Option AssistantMessage)

pub data Reply : Type 0 where
  throws_exited throws_busy goes_on : Reply

abbrev pub find_submit : ℕ → List Submit → Option Submit
find_submit k [] = none
find_submit k (s ∷ ss) = if s.id == k then some s else find_submit k ss

abbrev pub drop_submit : ℕ → List Submit → List Submit
drop_submit k ss = keep (λ s. not (s.id == k)) ss

abbrev pub find_request : ℕ → List Request → Option Request
find_request k [] = none
find_request k (r ∷ rs) = if r.number == k then some r else find_request k rs

abbrev pub drop_request : ℕ → List Request → List Request
drop_request k rs = keep (λ r. not (r.number == k)) rs

abbrev pub is_active : Option ℕ → Bool
is_active none = false
is_active (some k) = true

abbrev pub to_list : Option ℕ → List ℕ
to_list none = []
to_list (some k) = k ∷ []

abbrev pub or_else : String → Option String → String
or_else d none = d
or_else d (some b) = b

module _ {R : Type 0} where
  abbrev pub new_http : State R → Http R
  new_http s = record {
    agent = new_agent (record s { status = idle });
    active = none;
    pending = none;
    next_submit = 0;
    barging = [];
    staging = [];
    sent = [];
    running = [];
    aborted = [];
    results = [];
  }

  unfoldable pub interrupt : Http R → Http R
  interrupt h =
      if h.agent.has_exited then h else record h { aborted = h.aborted ++ to_list h.active }

  unfoldable pub kill : Http R → Http R
  unfolding finish
  kill h =
      if h.agent.has_exited
      then h
      else record h { aborted = h.aborted ++ to_list h.active; agent = finish 0 h.agent }

  -- `rawWrite`
  abbrev pub raw_write : String → Http R → Http R
  raw_write s h = record h { pending = some s }

  abbrev pub write_body : Option String → Http R → Http R
  write_body none h = h
  write_body (some s) h = raw_write s h

  -- The second piece: `pendingBody = undefined` and the call of the control.
  abbrev pub stage : (String → Option String) → Submit → Http R → Http R
  stage body_of s h =
      write_body (body_of s.prompt) (record h { pending = none; staging = h.staging ++ s ∷ [] })

  -- The first piece, and the second where no interrupt stands between them.
  unfoldable pub submit : (String → Option String) → Bool → String → Http R → Http R × Reply
  unfolding interrupt
  submit body_of interrupt_if_busy prompt h =
      let s : Submit = record { id = h.next_submit; prompt = prompt } in
      let h' = record h { next_submit = h.next_submit + 1 } in
      if h.agent.has_exited
      then (h, throws_exited)
      else if is_active h.active
      then (if interrupt_if_busy
          then (interrupt (record h' { barging = h.barging ++ s ∷ [] }), goes_on)
          else (h, throws_busy))
      else (stage body_of s h', goes_on)

  -- The interrupt of a submit has returned.
  abbrev pub resume_barging : (String → Option String) → Option Submit → Http R → Http R
  resume_barging body_of none h = h
  resume_barging body_of (some s) h =
      stage body_of s (record h { barging = drop_submit s.id h.barging })

  -- The third piece: the body, the status, and `performRequest` up to its `fetch`.
  abbrev pub resume_staging : (String → String) → Option Submit → Http R → Http R
  resume_staging default_body none h = h
  resume_staging default_body (some s) h = record h {
    staging = drop_submit s.id h.staging;
    sent = h.sent ++ or_else (default_body s.prompt) h.pending ∷ [];
    pending = none;
    agent = set_status busy h.agent;
    active = some (length h.sent);
    running = h.running ++ record { number = length h.sent; from = length h.agent.transcript } ∷ [];
  }

  -- The control of a submit has thrown.
  abbrev pub control_failed : ℕ → Http R → Http R
  control_failed k h = record h { staging = drop_submit k h.staging }

  -- A chunk of the response comes; the pieces that are fed come behind it. Nothing comes of a request
  -- that is not in flight.
  abbrev pub on_output : String → Option Request → Http R → Http R
  on_output s none h = h
  on_output s (some r) h = record h { agent = emit (output s) h.agent }

  unfoldable pub on_chunk :
      (String → State R → Parsed R) → String → Option Request → Http R → Http R
  unfolding feed_chunk
  on_chunk parse s none h = h
  on_chunk parse s (some r) h = record h { agent = feed_chunk parse s h.agent }

  abbrev pub when_busy : Agent R → Agent R
  when_busy a = if same_status a.state.status busy then set_status idle a else a

  -- A request ends: `activeAbort = undefined`, and the `finally` of `submit`.
  abbrev pub end_request : ℕ → Http R → Http R
  end_request k h = record h {
    running = drop_request k h.running;
    active = none;
    agent = when_busy h.agent;
  }

  unfoldable pub on_done : Option Request → Http R → Http R
  unfolding set_status
  on_done none h = h
  on_done (some r) h = record (end_request r.number h) {
    results = h.results ++ last? (drop r.from h.agent.transcript) ∷ [];
  }

  -- The request fails, is aborted, or answers with an error status.
  unfoldable pub on_failed : Option Request → Http R → Http R
  unfolding set_status
  on_failed none h = h
  on_failed (some r) h = end_request r.number h

  -- The timer of a request.
  abbrev pub on_timeout : Option Request → Http R → Http R
  on_timeout none h = h
  on_timeout (some r) h = record h { aborted = h.aborted ++ r.number ∷ [] }

pub data Event : Type 0 where
  submitted : (interrupt_if_busy : Bool) → (prompt : String) → Event
  interrupt_done control_done control_threw : ℕ → Event
  came chunk : ℕ → String → Event
  done failed timeout : ℕ → Event
  interrupted killed : Event
  written : String → Event

module _ {R : Type 0} (parse : String → State R → Parsed R) (body_of : String → Option String)
    (default_body : String → String) where
  unfoldable pub on_event : Event → Http R → Http R
  unfolding submit interrupt kill on_chunk on_done on_failed set_status
  on_event (submitted i p) h = (submit body_of i p h).0
  on_event (interrupt_done k) h = resume_barging body_of (find_submit k h.barging) h
  on_event (control_done k) h = resume_staging default_body (find_submit k h.staging) h
  on_event (control_threw k) h = control_failed k h
  on_event (came k s) h = on_output s (find_request k h.running) h
  on_event (chunk k s) h = on_chunk parse s (find_request k h.running) h
  on_event (done k) h = on_done (find_request k h.running) h
  on_event (failed k) h = on_failed (find_request k h.running) h
  on_event (timeout k) h = on_timeout (find_request k h.running) h
  on_event interrupted h = interrupt h
  on_event killed h = kill h
  on_event (written s) h = raw_write s h

  unfoldable pub on_events : List Event → Http R → Http R
  unfolding on_event
  on_events [] h = h
  on_events (e ∷ es) h = on_events es (on_event e h)
