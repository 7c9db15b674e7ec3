-- ===== src/Agents/Manager/Tests.antt =====
-- A manager with one driver, one runtime and one agent.
use cordyceps.Common.{
  if◌then◌else◌, ℕ, ◌≡◌, refl, ◌⊎◌, inl, Bool, true, false, Option, none, some, [], ◌∷◌, str_eq,
}
use cordyceps.Common.Map
use cordyceps.Common.Map.{Map}
use cordyceps.Common.Text.{Text}
use cordyceps.Drivers.Api.{Driver, DriverProbe, exec}
use cordyceps.Agents.Manager.{
  Runtime, Factory, AgentManager, SpawnOptions, removed, pick_id, finish_spawn, spawn, kill, remove,
  kill_all,
}
use cordyceps.Agents.Manager.Spawn.{Spawned, Failed, spawn_cases}
use cordyceps.Agents.Manager.Lifecycle.{kill_all_lem, remove-kill}

-- An agent is a serial number and whether it has exited.
abbrev Agent : Type 0
Agent = ℕ × Bool

abbrev runtime : Runtime Agent
runtime = record { exited = λ a. a.1; kill = λ a. ((a.0, true), none) }

abbrev codex : Driver
codex = record { id = "codex"; aliases = []; modes = exec ∷ [] }

abbrev ask : Driver → DriverProbe
ask d = record { available = true; warnings = []; supported_modes = exec ∷ [] }

abbrev make : Factory Agent
make args = inl (2, false)

abbrev manager : AgentManager Agent
manager = record {
  agents = ("one", (1, false)) ∷ [];
  runtimes = (exec, make) ∷ [];
  drivers = record { drivers = ("codex", codex) ∷ []; aliases = []; probes = [] };
  created = "one" ∷ [];
}

abbrev options : SpawnOptions
options = record { id = some "two"; mode = none }

spawn_cases_example :
    Spawned ask "codex"
      (pick_id options [] "agent-0" manager.agents)
      manager
      (spawn ask "codex" options [] "agent-0" manager)
    ⊎ Failed manager (spawn ask "codex" options [] "agent-0" manager)
spawn_cases_example = spawn_cases ask "codex" options [] "agent-0" manager

-- Two calls of `spawn` with one id that both pass their tests before either has its runtime: the
-- second entry replaces the first, whose agent is in no list any more.
overlapping_spawns :
    (finish_spawn
      (record { id = "two"; driver = codex; mode = exec })
      (3, false)
      (finish_spawn (record { id = "two"; driver = codex; mode = exec }) (2, false) manager)).agents
    ≡ ("one", (1, false)) ∷ ("two", (3, false)) ∷ []
unfolding finish_spawn Map.put
overlapping_spawns = refl

kill_all_lem_example :
    ((Map.get "one" manager.agents ≡ none)
      × (Map.get "one" (kill_all runtime manager).agents ≡ none))
    ⊎ ((a : Agent) × (b : Agent) × (Map.get "one" manager.agents ≡ some a)
        × (Map.get "one" (kill_all runtime manager).agents ≡ some b)
        × (runtime.exited b ≡ true)
        × ((runtime.exited a ≡ false) ⊎ (b ≡ a)))
kill_all_lem_example = kill_all_lem runtime manager "one" (λ a. refl)

remove-kill_example :
    ((Map.get "one" manager.agents ≡ none) × (kill runtime "one" manager ≡ none))
    ⊎ ((h : AgentManager Agent) × (e : Option Text) × (kill runtime "one" manager ≡ some (h, e))
        × ((remove runtime "one" h).1 ≡ removed)
        × (Map.get "two" (remove runtime "one" h).0.agents
            ≡ (if str_eq "one" "two" then none else Map.get "two" manager.agents)))
remove-kill_example = remove-kill runtime "one" "two" manager (λ a. refl)
