-- ===== src/Agents/Manager/Lifecycle.antt =====
-- Killing and removing agents, and the runtimes of a manager.
use cordyceps.Common.{
  if◌then◌else◌, Bool-cases, Option-cases, String, ◌≡◌, refl, ◌∙◌, ◌⊎◌, inl, inr, true, false,
  Option, none, some, List, [], ◌∷◌, ◌++◌, arith, str_eq,
}
use cordyceps.Common.Map
use cordyceps.Common.Map.{Map, get-put, get-delete, get-put_self}
use cordyceps.Common.Text.{Text}
use cordyceps.Drivers.Api.{DriverMode, mode_eq, mode_eq_iff}
use cordyceps.Agents.Manager.{
  Runtime, Factory, AgentManager, removed, absent, still_running, find_factory, delete_factory,
  register_runtime, unregister_runtime, kill, remove, kill_live, kill_all,
}

-- The law of a runtime: an agent that was killed has exited, also where its `kill` throws.
abbrev pub Kills : {A : Type 0} → Runtime A → Type 0
Kills {A} r = (a : A) → r.exited (r.kill a).0 ≡ true

module _ {A : Type 0} (r : Runtime A) where
  -- Removing an id answers by the state of its agent: where the id is unknown or the agent runs,
  -- nothing changes; an exited agent goes, and its id stands for nothing then while every other id
  -- stands for what it stood for.
  pub remove_lem :
      (id j : String) (g : AgentManager A)
      → ((Map.get id g.agents ≡ none) × (remove r id g ≡ (g, absent)))
        ⊎ (((a : A) × (Map.get id g.agents ≡ some a)
              × (r.exited a ≡ false)
              × (remove r id g ≡ (g, still_running)))
            ⊎ ((a : A) × (Map.get id g.agents ≡ some a)
                × (r.exited a ≡ true)
                × ((remove r id g).1 ≡ removed)
                × (Map.get j (remove r id g).0.agents
                    ≡ (if str_eq id j then none else Map.get j g.agents))))
  unfolding remove
  remove_lem id j g = elim (Option-cases (Map.get id g.agents)) [
    | inl e ↦ inl (e, ground (arith, e))
    | inr (a, e) ↦ elim (Bool-cases (r.exited a)) [
      | inl x ↦
          inr (inr (a, e, x, ground (arith, e, x), ground (arith, e, x, get-delete id j g.agents)))
      | inr x ↦ inr (inl (a, e, x, ground (arith, e, x)))
    ]
  ]

  get-kill_live :
      (j : String) (m : Map A)
      → Map.get j (kill_live r m) ≡ elim (Map.get j m) [
        | none ↦ none
        | some a ↦ some (if r.exited a then a else (r.kill a).0)
      ]
  unfolding kill_live Map.get
  get-kill_live j [] = refl
  get-kill_live j ((i, a) ∷ m) = elim (Bool-cases (r.exited a)) [
    | inl x ↦ ground (arith, x, get-kill_live j m)
    | inr x ↦ ground (arith, x, get-kill_live j m)
  ]

  -- After all agents are killed, where the runtimes keep their law: the ids are the same, each has
  -- exited, and an agent that had exited before is as it was.
  pub kill_all_lem :
      (g : AgentManager A) (j : String)
      → Kills r
      → ((Map.get j g.agents ≡ none) × (Map.get j (kill_all r g).agents ≡ none))
        ⊎ ((a : A) × (b : A) × (Map.get j g.agents ≡ some a)
            × (Map.get j (kill_all r g).agents ≡ some b)
            × (r.exited b ≡ true)
            × ((r.exited a ≡ false) ⊎ (b ≡ a)))
  unfolding kill_all
  kill_all_lem g j law = elim (Option-cases (Map.get j g.agents)) [
    | inl e ↦ inl (e, get-kill_live j g.agents ∙ ground (arith, e))
    | inr (a, e) ↦ elim (Bool-cases (r.exited a)) [
      | inl x ↦ inr (a, a, e, get-kill_live j g.agents ∙ ground (arith, e, x), x, inr refl)
      | inr x ↦
          inr (a, (r.kill a).0, e, get-kill_live j g.agents ∙ ground (arith, e, x), law a, inl x)
    ]
  ]

  -- Where the runtimes keep their law, an agent that is killed can be removed, and then its id
  -- stands for nothing while every other id stands for what it stood for; killing an id that
  -- stands for nothing is an error.
  pub remove-kill :
      (id j : String) (g : AgentManager A)
      → Kills r
      → ((Map.get id g.agents ≡ none) × (kill r id g ≡ none))
        ⊎ ((h : AgentManager A) × (e : Option Text) × (kill r id g ≡ some (h, e))
            × ((remove r id h).1 ≡ removed)
            × (Map.get j (remove r id h).0.agents
                ≡ (if str_eq id j then none else Map.get j g.agents)))
  unfolding kill remove
  remove-kill id j g law = elim (Option-cases (Map.get id g.agents)) [
    | inl e ↦ inl (e, ground (arith, e))
    | inr (a, e) ↦
        let b = (r.kill a).0 in
        let m = Map.put id b g.agents in
        let found : Map.get id m ≡ some b = get-put_self id b g.agents in
        inr (
          record g { agents = m },
          (r.kill a).1,
          ground (arith, e),
          ground (arith, found, law a),
          ground (arith, found, law a, get-delete id j m, get-put id j b g.agents),
        )
  ]

module _ {A : Type 0} where
  find_factory-append :
      (m k : DriverMode) (f : Factory A) (fs : List (DriverMode × Factory A))
      → find_factory m fs ≡ none
      → find_factory k (fs ++ (m, f) ∷ []) ≡ (if mode_eq m k then some f else find_factory k fs)
  unfolding find_factory
  find_factory-append m k f [] h = refl
  find_factory-append m k f ((n, g) ∷ fs) h =
      ground
        (arith, h, find_factory-append m k f fs, mode_eq_iff n k, mode_eq_iff n m, mode_eq_iff m k)

  find_factory-delete :
      (m k : DriverMode) (fs : List (DriverMode × Factory A))
      → find_factory k (delete_factory m fs) ≡ (if mode_eq m k then none else find_factory k fs)
  unfolding find_factory delete_factory
  find_factory-delete m k [] = ground arith
  find_factory-delete m k ((n, g) ∷ fs) =
      ground (arith, find_factory-delete m k fs, mode_eq_iff n k, mode_eq_iff n m, mode_eq_iff m k)

  -- A mode has at most one factory: registering a mode that has one fails, else the mode's factory
  -- is the new one until it is unregistered, and the other modes keep theirs all the time.
  pub register_runtime_lem :
      (m k : DriverMode) (f : Factory A) (g : AgentManager A)
      → (((h : Factory A) × (find_factory m g.runtimes ≡ some h) × (register_runtime m f g ≡ none))
          ⊎ ((h : AgentManager A) × (find_factory m g.runtimes ≡ none)
              × (register_runtime m f g ≡ some h)
              × (find_factory k h.runtimes
                  ≡ (if mode_eq m k then some f else find_factory k g.runtimes))))
        × (find_factory k (unregister_runtime m g).0.runtimes
            ≡ (if mode_eq m k then none else find_factory k g.runtimes))
  unfolding register_runtime unregister_runtime
  register_runtime_lem m k f g = (
    elim (Option-cases (find_factory m g.runtimes)) [
      | inl e ↦ inr (
        record g { runtimes = g.runtimes ++ (m, f) ∷ [] },
        e,
        ground (arith, e),
        find_factory-append m k f g.runtimes e,
      )
      | inr (h, e) ↦ inl (h, e, ground (arith, e))
    ],
    find_factory-delete m k g.runtimes,
  )
