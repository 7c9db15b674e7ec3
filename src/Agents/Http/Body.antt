-- ===== src/Agents/Http/Body.antt =====
-- The body that a submit sends.
use cordyceps.Common.{
  by_test, ◌+◌, String, ◌≡◌, refl, ap, ◌∙◌, Bool, true, false, ◌&&◌, Option, none, some, List, [],
  ◌∷◌, ◌++◌, arith,
}
use cordyceps.Agents.Feed.{State, Parsed}
use cordyceps.Agents.Http.{
  Submit, Request, Http, Reply, goes_on, find_submit, find_request, is_active, or_else, interrupt,
  kill, write_body, stage, submit, resume_staging, on_chunk, on_output, on_done, on_failed,
  on_timeout, Event, submitted, interrupt_done, control_done, control_threw, came, chunk, done,
  failed, timeout, interrupted, killed, written, on_event, on_events,
}

-- No submit begins, goes on or is given up, and nothing is written from outside.
abbrev pub is_quiet : Event → Bool
is_quiet (submitted i p) = false
is_quiet (interrupt_done k) = false
is_quiet (control_done k) = false
is_quiet (control_threw k) = false
is_quiet (written s) = false
is_quiet _ = true

abbrev pub all_quiet : List Event → Bool
all_quiet [] = true
all_quiet (e ∷ es) = is_quiet e && all_quiet es

module _ {R : Type 0} (parse : String → State R → Parsed R) (body_of : String → Option String)
    (default_body : String → String) where
  abbrev Keeps : Http R → Http R → Type 0
  Keeps g h = (h.staging ≡ g.staging) × (h.pending ≡ g.pending) × (h.sent ≡ g.sent)

  on_chunk-Keeps : (s : String) (o : Option Request) (h : Http R) → Keeps h (on_chunk parse s o h)
  unfolding on_chunk
  on_chunk-Keeps s none h = (refl, refl, refl)
  on_chunk-Keeps s (some r) h = (refl, refl, refl)

  on_output-Keeps : (s : String) (o : Option Request) (h : Http R) → Keeps h (on_output s o h)
  on_output-Keeps s none h = (refl, refl, refl)
  on_output-Keeps s (some r) h = (refl, refl, refl)

  on_done-Keeps : (o : Option Request) (h : Http R) → Keeps h (on_done o h)
  unfolding on_done
  on_done-Keeps none h = (refl, refl, refl)
  on_done-Keeps (some r) h = (refl, refl, refl)

  on_failed-Keeps : (o : Option Request) (h : Http R) → Keeps h (on_failed o h)
  unfolding on_failed
  on_failed-Keeps none h = (refl, refl, refl)
  on_failed-Keeps (some r) h = (refl, refl, refl)

  on_timeout-Keeps : (o : Option Request) (h : Http R) → Keeps h (on_timeout o h)
  on_timeout-Keeps none h = (refl, refl, refl)
  on_timeout-Keeps (some r) h = (refl, refl, refl)

  quiet-Keeps :
      (e : Event) (h : Http R)
      → is_quiet e ≡ true
      → Keeps h (on_event parse body_of default_body e h)
  unfolding on_event interrupt kill
  quiet-Keeps (submitted i p) h q = absurd (ground (arith, q))
  quiet-Keeps (interrupt_done k) h q = absurd (ground (arith, q))
  quiet-Keeps (control_done k) h q = absurd (ground (arith, q))
  quiet-Keeps (control_threw k) h q = absurd (ground (arith, q))
  quiet-Keeps (written s) h q = absurd (ground (arith, q))
  quiet-Keeps (came k s) h q = on_output-Keeps s (find_request k h.running) h
  quiet-Keeps (chunk k s) h q = on_chunk-Keeps s (find_request k h.running) h
  quiet-Keeps (done k) h q = on_done-Keeps (find_request k h.running) h
  quiet-Keeps (failed k) h q = on_failed-Keeps (find_request k h.running) h
  quiet-Keeps (timeout k) h q = on_timeout-Keeps (find_request k h.running) h
  quiet-Keeps interrupted h q =
      by_test (Keeps h) h.agent.has_exited (λ x. (refl, refl, refl)) (λ x. (refl, refl, refl))
  quiet-Keeps killed h q =
      by_test (Keeps h) h.agent.has_exited (λ x. (refl, refl, refl)) (λ x. (refl, refl, refl))

  all_quiet-Keeps :
      (es : List Event) (h : Http R)
      → all_quiet es ≡ true
      → Keeps h (on_events parse body_of default_body es h)
  unfolding on_events
  all_quiet-Keeps [] h q = (refl, refl, refl)
  all_quiet-Keeps (e ∷ es) h q =
      let (s, p, t) = quiet-Keeps e h (ground (arith, q)) in
      let (s', p', t') =
        all_quiet-Keeps es (on_event parse body_of default_body e h) (ground (arith, q)) in
      (s' ∙ s, p' ∙ p, t' ∙ t)

  write_body-fields :
      (o : Option String) (h : Http R)
      → h.pending ≡ none
      → ((write_body o h).staging ≡ h.staging)
        × ((write_body o h).pending ≡ o)
        × ((write_body o h).sent ≡ h.sent)
  write_body-fields none h e = (refl, e, refl)
  write_body-fields (some s) h e = (refl, refl, refl)

  abbrev own : String → Http R → Submit
  own p h = record { id = h.next_submit; prompt = p }

  submit_stages :
      (i : Bool) (p : String) (h : Http R)
      → h.agent.has_exited ≡ false
      → is_active h.active ≡ false
      → submit body_of i p h
        ≡ (stage body_of (own p h) (record h { next_submit = h.next_submit + 1 }), goes_on)
  unfolding submit
  submit_stages i p h x y =
      by_test Staged h.agent.has_exited (λ z. absurd (ground (arith, x, z)))
        (λ z. by_test Staged (is_active h.active) (λ w. absurd (ground (arith, y, w))) (λ w. refl))
    where
      Staged : Http R × Reply → Type 0
      Staged r =
          r ≡ (stage body_of (own p h) (record h { next_submit = h.next_submit + 1 }), goes_on)

  submit-fields :
      (i : Bool) (p : String) (h : Http R)
      → h.agent.has_exited ≡ false
      → is_active h.active ≡ false
      → ((submit body_of i p h).0.staging ≡ h.staging ++ own p h ∷ [])
        × ((submit body_of i p h).0.pending ≡ body_of p)
        × ((submit body_of i p h).0.sent ≡ h.sent)
  submit-fields i p h x y =
      let e = submit_stages i p h x y in
      let (s, b, t) =
        write_body-fields (body_of p)
          (record h {
            next_submit = h.next_submit + 1;
            pending = none;
            staging = h.staging ++ own p h ∷ [];
          })
          refl in
      (ap (λ r. r.0.staging) e ∙ s, ap (λ r. r.0.pending) e ∙ b, ap (λ r. r.0.sent) e ∙ t)

  resume_staging-sent :
      (o : Option Submit) (s : Submit) (h : Http R)
      → o ≡ some s
      → (resume_staging default_body o h).sent
        ≡ h.sent ++ or_else (default_body s.prompt) h.pending ∷ []
  resume_staging-sent o s h e = rw e refl

  find_own : (p : String) (h : Http R) → find_submit h.next_submit (own p h ∷ []) ≡ some (own p h)
  find_own p h = ground arith

-- While no other submit waits for the control, a submit to an agent that has not exited and has no
-- request in flight sends the body that the control wrote for its prompt, or the prompt as JSON where
-- it wrote none, whatever output, ends, failures, timers, interrupts and kills come before the control
-- returns.
pub own_body :
    {R : Type 0} (parse : String → State R → Parsed R) (body_of : String → Option String)
    (default_body : String → String) (i : Bool) (p : String) (es : List Event) (h : Http R)
    → h.staging ≡ []
    → h.agent.has_exited ≡ false
    → is_active h.active ≡ false
    → all_quiet es ≡ true
    → (on_event parse body_of default_body (control_done h.next_submit) (
        on_events parse body_of default_body es
          (on_event parse body_of default_body (submitted i p) h))).sent
      ≡ h.sent ++ or_else (default_body p) (body_of p) ∷ []
unfolding on_event
own_body parse body_of default_body i p es h n x y q =
    let h1 = (submit body_of i p h).0 in
    let h2 = on_events parse body_of default_body es h1 in
    let (s, b, t) = submit-fields parse body_of default_body i p h x y in
    let (s', b', t') = all_quiet-Keeps parse body_of default_body es h1 q in
    let mine = own parse body_of default_body p h in
    let found : find_submit h.next_submit h2.staging ≡ some mine =
      ap (find_submit h.next_submit) (s' ∙ s ∙ ap (λ l. l ++ mine ∷ []) n)
      ∙ find_own parse body_of default_body p h in
    resume_staging-sent parse body_of default_body (find_submit h.next_submit h2.staging) mine h2
      found
    ∙ ap (λ l. l ++ or_else (default_body p) h2.pending ∷ []) (t' ∙ t)
    ∙ ap (λ o. h.sent ++ or_else (default_body p) o ∷ []) (b' ∙ b)
