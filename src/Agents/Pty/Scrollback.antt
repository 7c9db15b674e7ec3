-- ===== src/Agents/Pty/Scrollback.antt =====
-- The scrollback holds the last chunks of output.
use cordyceps.Common.{
  ltb, if◌then◌else◌, ltb→lt, Bool-cases, by_test, length, drop, length-append, length-drop,
  drop-append_of_le, ℕ, zero, suc, ◌+◌, ◌-◌, ◌≤◌, ◌<◌, String, ◌≡◌, refl, sym, ap, ◌∙◌, ◌⊎◌, inl,
  inr, Bool, true, false, not, ◌&&◌, ◌||◌, List, [], ◌∷◌, ◌++◌, append-nil, append_assoc, arith,
}
use cordyceps.Agents.Types.{busy}
use cordyceps.Agents.Feed.{State, Parsed, same_status}
use cordyceps.Agents.Pty.{
  Pty, Reply, new_pty, type_in, submit_rest, interrupt, submit, approve, reject, raw_write, kill,
  on_pty_data, on_pty_exit, push_scrollback, scrollback_max, Event, started, submitted, resumed,
  waited, interrupted, approved, rejected, killed, written, wrote, data_came, exit, timeout,
  on_event, on_events,
}

-- The chunks that come.
abbrev pub chunk_of : Event → List String
chunk_of (data_came s) = s ∷ []
chunk_of _ = []

abbrev pub chunks_of : List Event → List String
chunks_of [] = []
chunks_of (e ∷ es) = chunk_of e ++ chunks_of es

Event-cases : (e : Event) → (chunk_of e ≡ []) ⊎ ((t : String) × (e ≡ data_came t))
Event-cases (data_came t) = inr (t, refl)
Event-cases started = inl refl
Event-cases (submitted i e) = inl refl
Event-cases (resumed e) = inl refl
Event-cases waited = inl refl
Event-cases interrupted = inl refl
Event-cases approved = inl refl
Event-cases rejected = inl refl
Event-cases killed = inl refl
Event-cases (written t) = inl refl
Event-cases (wrote t) = inl refl
Event-cases (exit code) = inl refl
Event-cases (timeout k) = inl refl

-- The last entries of a list, at most `n`.
abbrev pub latest : ℕ → List String → List String
latest n l = drop (length l - n) l

drop_nil : (k : ℕ) → drop {A = String} k [] ≡ []
drop_nil zero = refl
drop_nil (suc k) = refl

drop-drop : (j k : ℕ) (l : List String) → drop j (drop k l) ≡ drop (k + j) l
drop-drop j zero l = ap (λ x. drop x l) (omega arith)
drop-drop j (suc k) [] = drop_nil j ∙ sym (drop_nil (suc k + j))
drop-drop j (suc k) (x ∷ l) =
    let same : suc (k + j) ≡ suc k + j = omega arith in
    drop-drop j k l ∙ ap (λ n. drop n (x ∷ l)) same

-- Both ways to keep the latest entries, with the bound as a number.
push_lem :
    (n : ℕ) (c : String) (l : List String)
    → (if ltb n (length (latest n l ++ c ∷ []))
        then drop (length (latest n l ++ c ∷ []) - n) (latest n l ++ c ∷ [])
        else latest n l ++ c ∷ [])
      ≡ latest n (l ++ c ∷ [])
push_lem n c l =
    let size = length-append l (c ∷ []) in
    let kept = sym (drop-append_of_le (length l - n) l (c ∷ []) (omega arith)) in
    let room = length-append (latest n l) (c ∷ []) in
    let left = length-drop (length l - n) l in
    elim (Bool-cases (ltb n (length (latest n l ++ c ∷ [])))) [
      | inl e ↦
          let full : n ≤ length l =
            omega (arith, ltb→lt n (length (latest n l ++ c ∷ [])) e, room, left) in
          rw e (
            ap (drop (length (latest n l ++ c ∷ []) - n)) kept
            ∙ drop-drop (length (latest n l ++ c ∷ []) - n) (length l - n) (l ++ c ∷ [])
            ∙ ap (λ k. drop k (l ++ c ∷ [])) (omega (arith, size, room, left, full)))
      | inr e ↦
          let short : length l < n = ground (arith, e, room, left) in
          rw e (kept ∙ ap (λ k. drop k (l ++ c ∷ [])) (omega (arith, size, short)))
    ]

latest-push :
    (c : String) (l : List String)
    → push_scrollback c (latest scrollback_max l) ≡ latest scrollback_max (l ++ c ∷ [])
unfolding push_scrollback
latest-push c l = push_lem scrollback_max c l

module _ {R : Type 0} (parse : String → State R → Parsed R) where
  abbrev Keeps : Pty R → Pty R → Type 0
  Keeps p q = q.scrollback ≡ p.scrollback

  abbrev KeepsReply : Pty R → Pty R × Reply → Type 0
  KeepsReply p r = r.0.scrollback ≡ p.scrollback

  type_in-Keeps : (t : String) (p : Pty R) → Keeps p (type_in t p)
  type_in-Keeps t p = by_test (Keeps p) p.alive (λ e. refl) (λ e. refl)

  submit_rest-Keeps : (e : Bool) (p : Pty R) → Keeps p (submit_rest e p)
  submit_rest-Keeps true p = refl
  submit_rest-Keeps false p = refl

  interrupt-Keeps : (p : Pty R) → Keeps p (interrupt p)
  unfolding interrupt
  interrupt-Keeps p = by_test (Keeps p) p.agent.has_exited (λ e. refl) (λ e. refl)

  submit-Keeps : (i e : Bool) (p : Pty R) → KeepsReply p (submit i e p)
  unfolding submit
  submit-Keeps i e p =
      by_test (KeepsReply p) p.agent.has_exited (λ x. refl)
        (λ x.
          by_test (KeepsReply p) (i && same_status p.agent.state.status busy)
            (λ y. interrupt-Keeps p) (λ y. submit_rest-Keeps e p))

  event-Keeps : (e : Event) (p : Pty R) → chunk_of e ≡ [] → Keeps p (on_event parse e p)
  unfolding on_event approve reject raw_write kill on_pty_exit
  event-Keeps started p h = by_test (Keeps p) p.agent.has_exited (λ x. refl) (λ x. refl)
  event-Keeps (submitted i e) p h = submit-Keeps i e p
  event-Keeps (resumed e) p h = submit_rest-Keeps e p
  event-Keeps waited p h = refl
  event-Keeps interrupted p h = interrupt-Keeps p
  event-Keeps approved p h = by_test (KeepsReply p) p.agent.has_exited (λ x. refl) (λ x. refl)
  event-Keeps rejected p h = by_test (KeepsReply p) p.agent.has_exited (λ x. refl) (λ x. refl)
  event-Keeps killed p h =
      by_test (Keeps p) (p.agent.has_exited || not p.alive) (λ x. refl) (λ x. refl)
  event-Keeps (written t) p h =
      by_test (KeepsReply p) p.agent.has_exited (λ x. refl) (λ x. type_in-Keeps t p)
  event-Keeps (wrote t) p h = type_in-Keeps t p
  event-Keeps (data_came t) p h = absurd (ground (arith, h))
  event-Keeps (exit code) p h = by_test (Keeps p) p.alive (λ x. refl) (λ x. refl)
  event-Keeps (timeout k) p h = refl

  on_event_scrollback :
      (e : Event) (p : Pty R) (l : List String)
      → p.scrollback ≡ latest scrollback_max l
      → (on_event parse e p).scrollback ≡ latest scrollback_max (l ++ chunk_of e)
  unfolding on_event on_pty_data
  on_event_scrollback e p l h = elim (Event-cases e) [
    | inl c ↦
        event-Keeps e p c
        ∙ h
        ∙ ap (latest scrollback_max) (sym (append-nil l) ∙ ap (λ x. l ++ x) (sym c))
    | inr (t, d) ↦ rw d (ap (push_scrollback t) h ∙ latest-push t l)
  ]

  scrollback_from :
      (es : List Event) (p : Pty R) (l : List String)
      → p.scrollback ≡ latest scrollback_max l
      → (on_events parse es p).scrollback ≡ latest scrollback_max (l ++ chunks_of es)
  unfolding on_events
  scrollback_from [] p l h = h ∙ ap (latest scrollback_max) (sym (append-nil l))
  scrollback_from (e ∷ es) p l h =
      scrollback_from es (on_event parse e p) (l ++ chunk_of e) (on_event_scrollback e p l h)
      ∙ ap (latest scrollback_max) (append_assoc l (chunk_of e) (chunks_of es))

-- After any calls, output, exit and timers, the scrollback of a terminal agent holds the last 500
-- chunks of all output that came, in order, or all of them while they are fewer.
pub scrollback_latest :
    {R : Type 0} (parse : String → State R → Parsed R) (es : List Event) (s : State R)
    → (on_events parse es (new_pty s)).scrollback ≡ latest scrollback_max (chunks_of es)
scrollback_latest parse es s = scrollback_from parse es (new_pty s) [] refl
