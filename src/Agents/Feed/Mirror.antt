-- ===== src/Agents/Feed/Mirror.antt =====
-- What the steps of an agent keep: the bus and the log mirror its state.
use cordyceps.Common.{
  ℕ, ◌≡◌, refl, sym, ap, ◌∙◌, Bool, true, false, Option, none, some, List, [], ◌∷◌, ◌++◌,
  append-nil, arith,
}
use cordyceps.Agents.Types.{exited, AssistantMessage}
use cordyceps.Agents.Feed.{
  State, Emission, published, output, reported, told, blocked, idled, ended, Agent, new_agent,
  with_status, finish,
}
use cordyceps.Agents.Feed.Steps.{
  is_plain, Step, publishes, emits, tells, exits, Steps, stays, then_step,
}

abbrev pub to_list : Option ℕ → List ℕ
to_list none = []
to_list (some c) = c ∷ []

abbrev pub is_some : Option ℕ → Bool
is_some none = false
is_some (some c) = true

no_exit : (o : Option ℕ) → is_some o ≡ false → o ≡ none
no_exit none h = refl
no_exit (some c) h = absurd (ground (arith, h))

module _ {R : Type 0} where
  -- What a log says of the messages, of the last state and of the exits.
  abbrev pub messages_of : List (Emission R) → List AssistantMessage
  messages_of [] = []
  messages_of (told m ∷ es) = m ∷ messages_of es
  messages_of (_ ∷ es) = messages_of es

  abbrev pub last_state : State R → List (Emission R) → State R
  last_state s [] = s
  last_state s (published t ∷ es) = last_state t es
  last_state s (_ ∷ es) = last_state s es

  abbrev pub exits_of : List (Emission R) → List ℕ
  exits_of [] = []
  exits_of (ended c ∷ es) = c ∷ exits_of es
  exits_of (_ ∷ es) = exits_of es

  -- The bus has the agent's state, which is the one published last; the transcript holds the messages
  -- told, in order; the agent has exited just when it has emitted one exit, whose code is its exit
  -- code and the value of the exit promise.
  pub record IsMirrored (a : Agent R) : Type 0 where
    pub bus : a.bus_state ≡ a.state
    pub last : (s : State R) → last_state s a.log ≡ a.state
    pub messages : messages_of a.log ≡ a.transcript
    pub exits : exits_of a.log ≡ to_list a.exit_code
    pub promise : a.resolved ≡ a.exit_code
    pub flag : is_some a.exit_code ≡ a.has_exited

  messages_of-append :
      (es fs : List (Emission R)) → messages_of (es ++ fs) ≡ messages_of es ++ messages_of fs
  messages_of-append [] fs = refl
  messages_of-append (told m ∷ es) fs = ap (◌∷◌ m) (messages_of-append es fs)
  messages_of-append (published s ∷ es) fs = messages_of-append es fs
  messages_of-append (output s ∷ es) fs = messages_of-append es fs
  messages_of-append (reported s ∷ es) fs = messages_of-append es fs
  messages_of-append (blocked s ∷ es) fs = messages_of-append es fs
  messages_of-append (idled s ∷ es) fs = messages_of-append es fs
  messages_of-append (ended s ∷ es) fs = messages_of-append es fs

  exits_of-append : (es fs : List (Emission R)) → exits_of (es ++ fs) ≡ exits_of es ++ exits_of fs
  exits_of-append [] fs = refl
  exits_of-append (ended m ∷ es) fs = ap (◌∷◌ m) (exits_of-append es fs)
  exits_of-append (published s ∷ es) fs = exits_of-append es fs
  exits_of-append (output s ∷ es) fs = exits_of-append es fs
  exits_of-append (reported s ∷ es) fs = exits_of-append es fs
  exits_of-append (blocked s ∷ es) fs = exits_of-append es fs
  exits_of-append (idled s ∷ es) fs = exits_of-append es fs
  exits_of-append (told s ∷ es) fs = exits_of-append es fs

  last_state-append :
      (s : State R) (es fs : List (Emission R))
      → last_state s (es ++ fs) ≡ last_state (last_state s es) fs
  last_state-append s [] fs = refl
  last_state-append s (published t ∷ es) fs = last_state-append t es fs
  last_state-append s (ended m ∷ es) fs = last_state-append s es fs
  last_state-append s (output _ ∷ es) fs = last_state-append s es fs
  last_state-append s (reported _ ∷ es) fs = last_state-append s es fs
  last_state-append s (blocked _ ∷ es) fs = last_state-append s es fs
  last_state-append s (idled _ ∷ es) fs = last_state-append s es fs
  last_state-append s (told _ ∷ es) fs = last_state-append s es fs

  -- A plain emission changes none of the three.
  plain_lem :
      (e : Emission R)
      → is_plain e ≡ true
      → (messages_of (e ∷ []) ≡ [])
        × (exits_of (e ∷ []) ≡ [])
        × ((s : State R) → last_state s (e ∷ []) ≡ s)
  plain_lem (output _) h = (refl, refl, λ s. refl)
  plain_lem (reported _) h = (refl, refl, λ s. refl)
  plain_lem (blocked _) h = (refl, refl, λ s. refl)
  plain_lem (idled _) h = (refl, refl, λ s. refl)
  plain_lem (published _) h = absurd (ground (arith, h))
  plain_lem (told _) h = absurd (ground (arith, h))
  plain_lem (ended _) h = absurd (ground (arith, h))

  finish-IsMirrored :
      (code : ℕ) (a : Agent R) → a.has_exited ≡ false → IsMirrored a → IsMirrored (finish code a)
  unfolding finish
  finish-IsMirrored code a h m =
      let s = with_status exited a.state in
      let l = a.log ++ published s ∷ [] in
      let fresh = no_exit a.exit_code (m.flag ∙ h) in
      record {
        bus = refl;
        last = λ t.
            last_state-append t l (ended code ∷ []) ∙ last_state-append t a.log (published s ∷ []);
        messages =
            messages_of-append l (ended code ∷ [])
            ∙ append-nil (messages_of l)
            ∙ messages_of-append a.log (published s ∷ [])
            ∙ append-nil (messages_of a.log)
            ∙ m.messages;
        exits =
            exits_of-append l (ended code ∷ [])
            ∙ ap (λ x. x ++ code ∷ [])
                (exits_of-append a.log (published s ∷ [])
                  ∙ append-nil (exits_of a.log)
                  ∙ m.exits
                  ∙ ap to_list fresh);
        promise = rw (m.promise ∙ fresh) refl;
        flag = refl;
      }

  Step-IsMirrored : (a b : Agent R) → Step a b → IsMirrored a → IsMirrored b
  Step-IsMirrored a b (publishes s) m = record {
    bus = refl;
    last = λ t. last_state-append t a.log (published s ∷ []);
    messages =
        messages_of-append a.log (published s ∷ []) ∙ append-nil (messages_of a.log) ∙ m.messages;
    exits = exits_of-append a.log (published s ∷ []) ∙ append-nil (exits_of a.log) ∙ m.exits;
    promise = m.promise;
    flag = m.flag;
  }
  Step-IsMirrored a b (emits e h) m =
      let (x, y, z) = plain_lem e h in
      record {
        bus = m.bus;
        last = λ t. last_state-append t a.log (e ∷ []) ∙ z (last_state t a.log) ∙ m.last t;
        messages =
            messages_of-append a.log (e ∷ [])
            ∙ ap (◌++◌ (messages_of a.log)) x
            ∙ append-nil (messages_of a.log)
            ∙ m.messages;
        exits =
            exits_of-append a.log (e ∷ [])
            ∙ ap (◌++◌ (exits_of a.log)) y
            ∙ append-nil (exits_of a.log)
            ∙ m.exits;
        promise = m.promise;
        flag = m.flag;
      }
  Step-IsMirrored a b (tells t) m = record {
    bus = m.bus;
    last = λ s. last_state-append s a.log (told t ∷ []) ∙ m.last s;
    messages = messages_of-append a.log (told t ∷ []) ∙ ap (λ l. l ++ t ∷ []) m.messages;
    exits = exits_of-append a.log (told t ∷ []) ∙ append-nil (exits_of a.log) ∙ m.exits;
    promise = m.promise;
    flag = m.flag;
  }
  Step-IsMirrored a b (exits code h) m = finish-IsMirrored code a h m

  pub new_agent-IsMirrored : (s : State R) → IsMirrored (new_agent s)
  new_agent-IsMirrored s = record {
    bus = refl;
    last = λ t. refl;
    messages = refl;
    exits = refl;
    promise = refl;
    flag = refl;
  }

  pub Steps-IsMirrored : {a b : Agent R} → Steps a b → IsMirrored a → IsMirrored b
  Steps-IsMirrored stays m = m
  Steps-IsMirrored (then_step {b} {c} p s) m = Step-IsMirrored b c s (Steps-IsMirrored p m)

  Step-exit_code :
      (a b : Agent R) (c : ℕ)
      → Step a b
      → IsMirrored a
      → a.exit_code ≡ some c
      → b.exit_code ≡ some c
  unfolding finish
  Step-exit_code a b c (publishes s) m h = h
  Step-exit_code a b c (emits e p) m h = h
  Step-exit_code a b c (tells t) m h = h
  Step-exit_code a b c (exits code n) m h = absurd (ground (arith, sym (ap is_some h) ∙ m.flag, n))

  -- An agent that has an exit code keeps it.
  pub Steps-exit_code :
      {a b : Agent R}
      → Steps a b
      → (c : ℕ) → IsMirrored a
      → a.exit_code ≡ some c
      → b.exit_code ≡ some c
  Steps-exit_code stays c m h = h
  Steps-exit_code (then_step {b} {c = d} p s) c m h =
      Step-exit_code b d c s (Steps-IsMirrored p m) (Steps-exit_code p c m h)
