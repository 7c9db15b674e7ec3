-- ===== src/Agents/Feed/Steps.antt =====
-- The steps that the controllers' shared state makes, and what they keep.
use cordyceps.Common.{
  Bool-cases, ℕ, String, ◌≡◌, refl, ◌∙◌, inl, inr, Bool, true, false, Option, none, some, List, [],
  ◌∷◌,
}
use cordyceps.Agents.Types.{Status, idle, ParserEvent, AssistantMessage}
use cordyceps.Agents.Feed.{
  State, Parsed, Emission, published, reported, told, blocked, idled, ended, Agent, emit, publish,
  same_status, with_status, set_status, report_all, tell, tell_all, emit_blocked, emit_idle,
  take_state, feed_chunk, finish,
}

module _ {R : Type 0} where
  -- Emissions that are neither a state nor a message nor the exit.
  abbrev pub is_plain : Emission R → Bool
  is_plain (published s) = false
  is_plain (told m) = false
  is_plain (ended c) = false
  is_plain _ = true

  -- The steps of an agent: it publishes a state, emits something else, tells a message, or exits,
  -- which it does once.
  pub data Step (a : Agent R) : Agent R → Type 0 where
    publishes : (s : State R) → Step a (publish s a)
    emits : (e : Emission R) → is_plain e ≡ true → Step a (emit e a)
    tells : (m : AssistantMessage) → Step a (tell m a)
    exits : (code : ℕ) → a.has_exited ≡ false → Step a (finish code a)

  pub data Steps (a : Agent R) : Agent R → Type 0 where
    stays : Steps a a
    then_step : {b c : Agent R} → Steps a b → Step b c → Steps a c

  pub Steps_trans : {a b c : Agent R} → Steps a b → Steps b c → Steps a c
  Steps_trans p stays = p
  Steps_trans p (then_step q s) = then_step (Steps_trans p q) s

  abbrev pub step : {a b : Agent R} → Step a b → Steps a b
  step s = then_step stays s

  pub set_status-Steps : (t : Status) (a : Agent R) → Steps a (set_status t a)
  unfolding set_status
  set_status-Steps t a = elim (Bool-cases (same_status a.state.status t)) [
    | inl e ↦ rw e stays
    | inr e ↦ rw e (step (publishes (with_status t a.state)))
  ]

  report_all-Steps : (es : List ParserEvent) (a : Agent R) → Steps a (report_all es a)
  report_all-Steps [] a = stays
  report_all-Steps (e ∷ es) a =
      Steps_trans (step (emits (reported e) refl)) (report_all-Steps es (emit (reported e) a))

  tell_all-Steps : (ms : List AssistantMessage) (a : Agent R) → Steps a (tell_all ms a)
  tell_all-Steps [] a = stays
  tell_all-Steps (m ∷ ms) a = Steps_trans (step (tells m)) (tell_all-Steps ms (tell m a))

  emit_blocked-Steps : (b : Option String) (a : Agent R) → Steps a (emit_blocked b a)
  emit_blocked-Steps none a = stays
  emit_blocked-Steps (some b) a = step (emits (blocked b) refl)

  emit_idle-Steps : (a : Agent R) → Steps a (emit_idle a)
  emit_idle-Steps a = elim (Bool-cases (same_status a.state.status idle)) [
    | inl e ↦ rw e (step (emits (idled a.state) refl))
    | inr e ↦ rw e stays
  ]

  take_state-Steps : (r : Parsed R) (a : Agent R) → Steps a (take_state r a)
  take_state-Steps r a = elim (Bool-cases r.changed) [
    | inl e ↦ rw e (step (publishes r.state))
    | inr e ↦ rw e stays
  ]

  pub feed_chunk-Steps :
      (parse : String → State R → Parsed R) (chunk : String) (a : Agent R)
      → Steps a (feed_chunk parse chunk a)
  unfolding feed_chunk
  feed_chunk-Steps parse chunk a =
      let r = parse chunk a.state in
      let b = take_state r a in
      let c = report_all r.events b in
      let d = tell_all r.messages c in
      let e = emit_blocked d.state.blocking d in
      Steps_trans (take_state-Steps r a) (
        Steps_trans (report_all-Steps r.events b) (
          Steps_trans (tell_all-Steps r.messages c)
            (Steps_trans (emit_blocked-Steps d.state.blocking d) (emit_idle-Steps e))))

  set_state_keeps : (r : Parsed R) (a : Agent R) → (take_state r a).has_exited ≡ a.has_exited
  set_state_keeps r a = elim (Bool-cases r.changed) [ inl e ↦ rw e refl | inr e ↦ rw e refl ]

  report_all_keeps :
      (es : List ParserEvent) (a : Agent R) → (report_all es a).has_exited ≡ a.has_exited
  report_all_keeps [] a = refl
  report_all_keeps (e ∷ es) a = report_all_keeps es (emit (reported e) a)

  tell_all_keeps :
      (ms : List AssistantMessage) (a : Agent R) → (tell_all ms a).has_exited ≡ a.has_exited
  tell_all_keeps [] a = refl
  tell_all_keeps (m ∷ ms) a = tell_all_keeps ms (tell m a)

  emit_blocked_keeps :
      (b : Option String) (a : Agent R) → (emit_blocked b a).has_exited ≡ a.has_exited
  emit_blocked_keeps none a = refl
  emit_blocked_keeps (some b) a = refl

  emit_idle_keeps : (a : Agent R) → (emit_idle a).has_exited ≡ a.has_exited
  emit_idle_keeps a = elim (Bool-cases (same_status a.state.status idle)) [
    | inl e ↦ rw e refl
    | inr e ↦ rw e refl
  ]

  -- Output does not make an agent exit, nor bring it back.
  pub feed_chunk_keeps :
      (parse : String → State R → Parsed R) (chunk : String) (a : Agent R)
      → (feed_chunk parse chunk a).has_exited ≡ a.has_exited
  unfolding feed_chunk
  feed_chunk_keeps parse chunk a =
      let r = parse chunk a.state in
      let c = report_all r.events (take_state r a) in
      let d = tell_all r.messages c in
      emit_idle_keeps (emit_blocked d.state.blocking d)
      ∙ emit_blocked_keeps d.state.blocking d
      ∙ tell_all_keeps r.messages c
      ∙ report_all_keeps r.events (take_state r a)
      ∙ set_state_keeps r a

  pub set_status_keeps : (t : Status) (a : Agent R) → (set_status t a).has_exited ≡ a.has_exited
  unfolding set_status
  set_status_keeps t a = elim (Bool-cases (same_status a.state.status t)) [
    | inl e ↦ rw e refl
    | inr e ↦ rw e refl
  ]
