-- ===== src/Agents/Manager.antt =====
-- `AgentManager` of src/agents/manager.ts. The runtimes are of any type with `exited` and `kill`;
-- what a factory makes is its own affair. `spawn` has two parts, since the code awaits the factory
-- between its tests and the entry in the map.
pub mod Spawn
pub mod Lifecycle
mod Tests
use cordyceps.Common.{
  ltb, leb, ◌==◌, if◌then◌else◌, ltb→lt, lt→ltb, leb→le, ==_iff, Bool-cases, Option-cases,
  String-cases, str_eq_refl, str_eq-false, length, get_elem?, take, drop, keep, any, last?,
  length-append, take-append-drop, length-take, length-drop, All, All-append, All-map,
  drop-append_of_le, take-append_of_le, drop-length-append, take-length, append-ne-nil,
  slice-append_of_le, ℕ, zero, suc, ◌+◌, ◌-◌, ◌*◌, ◌/◌, ◌%◌, ◌≤◌, ◌<◌, min, max, String, ◌≡◌, refl,
  sym, ap, ◌∙◌, ◌≢◌, ◌↔◌, ◌⊎◌, inl, inr, Bool, true, false, not, ◌&&◌, ◌||◌, Option, none, some,
  List, [], ◌∷◌, ◌++◌, map-append, append-nil, append_assoc, arith, str_eq, eq_iff, map,
}
use cordyceps.Common.Map
use cordyceps.Common.Map.{Map}
use cordyceps.Common.Text.{Text}
use cordyceps.Drivers.Api.{Driver, DriverMode, DriverProbe, mode_eq}
use cordyceps.Drivers.Registry.{DriverRegistry, resolve, probe, choose_mode}

-- What the manager uses of `AgentRuntime`. `kill` gives the runtime it leaves, and what it throws.
pub record Runtime (A : Type 0) : Type 0 where
  pub exited : A → Bool
  pub kill : A → A × Option Text

-- The arguments of a runtime factory that depend on the request.
pub record FactoryOpts : Type 0 where
  pub id : String
  pub driver : Driver
  pub mode : DriverMode

abbrev pub Factory : Type 0 → Type 0
Factory A = FactoryOpts → A ⊎ Text

-- `created` are the ids of the `agent.created` events.
pub record AgentManager (A : Type 0) : Type 0 where
  pub agents : Map A
  pub runtimes : List (DriverMode × Factory A)
  pub drivers : DriverRegistry
  pub created : List String

-- What `spawn` throws.
pub data SpawnError : Type 0 where
  unknown_driver : String → SpawnError
  not_available : String → SpawnError
  no_runtime : String → SpawnError
  no_factory : DriverMode → SpawnError
  id_in_use : String → SpawnError
  factory_failed : Text → SpawnError

-- `mode` is `profile.mode`.
pub record SpawnOptions : Type 0 where
  pub id : Option String
  pub mode : Option DriverMode

pub data RemoveResult : Type 0 where
  removed absent still_running : RemoveResult

module _ {A : Type 0} where
  unfoldable pub find_factory : DriverMode → List (DriverMode × Factory A) → Option (Factory A)
  find_factory m [] = none
  find_factory m ((k, f) ∷ fs) = if mode_eq k m then some f else find_factory m fs

  unfoldable pub registered_modes : List (DriverMode × Factory A) → List DriverMode
  registered_modes [] = []
  registered_modes ((k, f) ∷ fs) = k ∷ registered_modes fs

  unfoldable pub delete_factory :
      DriverMode → List (DriverMode × Factory A) → List (DriverMode × Factory A)
  delete_factory m [] = []
  delete_factory m ((k, f) ∷ fs) =
      let rest = delete_factory m fs in if mode_eq k m then rest else (k, f) ∷ rest

  -- `none` where this throws.
  unfoldable pub register_runtime :
      DriverMode → Factory A → AgentManager A → Option (AgentManager A)
  register_runtime m f g = elim (find_factory m g.runtimes) [
    | some h ↦ none
    | none ↦ some (record g { runtimes = g.runtimes ++ (m, f) ∷ [] })
  ]

  unfoldable pub unregister_runtime : DriverMode → AgentManager A → AgentManager A × Bool
  unregister_runtime m g = (
    record g { runtimes = delete_factory m g.runtimes },
    elim (find_factory m g.runtimes) [ some f ↦ true | none ↦ false ],
  )

  -- The loop over the generated names; `fallback` is the name with the clock's time.
  unfoldable pub unique_name : List String → String → Map A → String
  unique_name [] fallback agents = fallback
  unique_name (n ∷ names) fallback agents =
      let rest = unique_name names fallback agents in if Map.has n agents then rest else n

  -- The tests in front of the factory, in their order. `ask` is the driver's probe; `names` are the
  -- 50 names that the generator would give.
  unfoldable pub pick_id : SpawnOptions → List String → String → Map A → String
  unfolding unique_name
  pick_id o names fallback agents = elim o.id [
    | some id ↦ id
    | none ↦ unique_name names fallback agents
  ]

  unfoldable pub check_id :
      Driver → DriverMode → Factory A → String → Map A → (FactoryOpts × Factory A) ⊎ SpawnError
  check_id d m f id agents =
      if Map.has id agents
      then inr (id_in_use id)
      else inl (record { id = id; driver = d; mode = m }, f)

  unfoldable pub pick_factory :
      Driver → Option DriverMode → String → AgentManager A → (FactoryOpts × Factory A) ⊎ SpawnError
  unfolding check_id
  pick_factory d none id g = inr (no_runtime d.id)
  pick_factory d (some m) id g = elim (find_factory m g.runtimes) [
    | none ↦ inr (no_factory m)
    | some f ↦ check_id d m f id g.agents
  ]

  unfoldable pub check_probe :
      Driver
      → Option DriverProbe
      → SpawnOptions
      → String
      → AgentManager A
      → (FactoryOpts × Factory A) ⊎ SpawnError
  unfolding pick_factory
  check_probe d none o id g = inr (not_available d.id)
  check_probe d (some p) o id g =
      if p.available
      then pick_factory d (choose_mode d o.mode p.supported_modes (registered_modes g.runtimes)) id
          g
      else inr (not_available d.id)

  -- Up to the call of the factory. The probe may be cached by this.
  unfoldable pub begin_spawn :
      (Driver → DriverProbe)
      → String
      → SpawnOptions
      → List String
      → String
      → AgentManager A
      → AgentManager A × ((FactoryOpts × Factory A) ⊎ SpawnError)
  unfolding check_probe pick_id
  begin_spawn ask name o names fallback g = elim (resolve name g.drivers) [
    | none ↦ (g, inr (unknown_driver name))
    | some d ↦
        let (drivers, p) = probe ask d.id false g.drivers in
        let h = record g { drivers = drivers } in
        (h, check_probe d p o (pick_id o names fallback g.agents) h)
  ]

  -- The factory has made the runtime.
  unfoldable pub finish_spawn : FactoryOpts → A → AgentManager A → AgentManager A
  finish_spawn args a g = record g {
    agents = Map.put args.id a g.agents;
    created = g.created ++ args.id ∷ [];
  }

  -- A spawn during which nothing else happens.
  unfoldable pub build :
      AgentManager A
      → (FactoryOpts × Factory A) ⊎ SpawnError
      → AgentManager A × ((String × A) ⊎ SpawnError)
  unfolding finish_spawn
  build g (inr e) = (g, inr e)
  build g (inl (args, f)) = elim (f args) [
    | inl a ↦ (finish_spawn args a g, inl (args.id, a))
    | inr e ↦ (g, inr (factory_failed e))
  ]

  unfoldable pub spawn :
      (Driver → DriverProbe)
      → String
      → SpawnOptions
      → List String
      → String
      → AgentManager A
      → AgentManager A × ((String × A) ⊎ SpawnError)
  unfolding begin_spawn build
  spawn ask name o names fallback g =
      let (h, ticket) = begin_spawn ask name o names fallback g in build h ticket

  -- `Agent not found` is `none`; the text is what the runtime's `kill` throws.
  unfoldable pub kill : Runtime A → String → AgentManager A → Option (AgentManager A × Option Text)
  kill r id g = elim (Map.get id g.agents) [
    | none ↦ none
    | some a ↦ let (b, e) = r.kill a in some (record g { agents = Map.put id b g.agents }, e)
  ]

  unfoldable pub remove : Runtime A → String → AgentManager A → AgentManager A × RemoveResult
  remove r id g = elim (Map.get id g.agents) [
    | none ↦ (g, absent)
    | some a ↦
        if r.exited a
        then (record g { agents = Map.delete id g.agents }, removed)
        else (g, still_running)
  ]

  -- Every agent that has not exited is killed; what this throws is dropped.
  unfoldable pub kill_live : Runtime A → Map A → Map A
  kill_live r [] = []
  kill_live r ((i, a) ∷ as') =
      let rest = kill_live r as' in if r.exited a then (i, a) ∷ rest else (i, (r.kill a).0) ∷ rest

  unfoldable pub kill_all : Runtime A → AgentManager A → AgentManager A
  unfolding kill_live
  kill_all r g = record g { agents = kill_live r g.agents }
